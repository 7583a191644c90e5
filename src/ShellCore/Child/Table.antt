-- ===== src/ShellCore/Child/Table.antt =====
-- What a process that the shell starts has open.
use network_programming.Base.{
  ℕ, Bool, true, false, ◌||◌, ◌&&◌, List, [], ◌∷◌, Option, none, some, ltb, ◌==◌, if◌then◌else◌,
  ◌≡◌, inl, inr, Bool-cases, arith, refl, ◌∙◌, ap,
}
use network_programming.ShellCore.Execute.{IoPlan, same_fd}
use network_programming.ShellCore.Os.{PipeFd}
use network_programming.ShellCore.State.{Pipes}
use network_programming.ShellCore.Child.{
  Table, close_entry, close_numbered_pipes_in_child, close_duplicated_fd, close_extra_fds_in_child,
  duplicate, close_ends, close_duplicated, child_table,
}

abbrev pub is_at : ℕ → Option ℕ → Bool
is_at x none = false
is_at x (some fd) = fd == x

abbrev pub is_end : ℕ → PipeFd → Bool
is_end x p = is_at x p.read_fd || is_at x p.write_fd

abbrev pub among_pipes : ℕ → Pipes → Bool
among_pipes x [] = false
among_pipes x ((_, p) ∷ ps) = is_end x p || among_pipes x ps

abbrev pub among : ℕ → List (Option ℕ) → Bool
among x [] = false
among x (fd ∷ fds) = is_at x fd || among x fds

abbrev pub erased : Bool → Option ℕ → Option ℕ
erased b file = if b then none else file

pub erased_or : (a b : Bool) (file : Option ℕ) → erased a (erased b file) ≡ erased (b || a) file
erased_or true true file = refl
erased_or true false file = refl
erased_or false true file = refl
erased_or false false file = refl

pub close_entry-erased :
    (o : Option ℕ) (t : Table) (x : ℕ) → close_entry o t x ≡ erased (is_at x o) (t x)
close_entry-erased none t x = refl
close_entry-erased (some fd) t x = refl

close_pipe-erased :
    (p : PipeFd) (t : Table) (x : ℕ)
    → close_entry p.write_fd (close_entry p.read_fd t) x ≡ erased (is_end x p) (t x)
close_pipe-erased p t x =
    close_entry-erased p.write_fd (close_entry p.read_fd t) x
    ∙ ap (erased (is_at x p.write_fd)) (close_entry-erased p.read_fd t x)
    ∙ erased_or (is_at x p.write_fd) (is_at x p.read_fd) (t x)

pub close_numbered_pipes_in_child-erased :
    (ps : Pipes) (t : Table) (x : ℕ)
    → close_numbered_pipes_in_child ps t x ≡ erased (among_pipes x ps) (t x)
unfolding close_numbered_pipes_in_child
close_numbered_pipes_in_child-erased [] t x = refl
close_numbered_pipes_in_child-erased ((s, p) ∷ ps) t x =
    close_numbered_pipes_in_child-erased ps (close_entry p.write_fd (close_entry p.read_fd t)) x
    ∙ ap (erased (among_pipes x ps)) (close_pipe-erased p t x)
    ∙ erased_or (among_pipes x ps) (is_end x p) (t x)

-- `close_duplicated_fd` leaves the standard descriptors alone.
abbrev pub is_above : ℕ → Option ℕ → Bool
is_above x o = ltb 2 x && is_at x o

close_duplicated_fd-erased :
    (o : Option ℕ) (t : Table) (x : ℕ) → close_duplicated_fd o t x ≡ erased (is_above x o) (t x)
close_duplicated_fd-erased none t x = ground arith
close_duplicated_fd-erased (some fd) t x = ground arith

abbrev pub above_among : ℕ → List (Option ℕ) → Bool
above_among x fds = ltb 2 x && among x fds

close_extra_fds_in_child-erased :
    (fds : List (Option ℕ)) (t : Table) (x : ℕ)
    → close_extra_fds_in_child fds t x ≡ erased (above_among x fds) (t x)
unfolding close_extra_fds_in_child
close_extra_fds_in_child-erased [] t x = ground arith
close_extra_fds_in_child-erased (fd ∷ fds) t x =
    close_extra_fds_in_child-erased fds (close_duplicated_fd fd t) x
    ∙ ap (erased (above_among x fds)) (close_duplicated_fd-erased fd t x)
    ∙ ground arith

pub close_ends-erased :
    (plan : IoPlan) (t : Table) (x : ℕ)
    → close_ends plan t x ≡ erased (is_end x plan.ordinary_pipe || is_at x plan.redirect_fd) (t x)
close_ends-erased plan t x =
    close_entry-erased plan.redirect_fd _ x
    ∙ ap (erased (is_at x plan.redirect_fd)) (close_pipe-erased plan.ordinary_pipe t x)
    ∙ erased_or (is_at x plan.redirect_fd) (is_end x plan.ordinary_pipe) (t x)

same_fd-is_at : (a b : Option ℕ) (x : ℕ) → same_fd a b ≡ true → is_at x a ≡ is_at x b
same_fd-is_at none none x h = refl
same_fd-is_at none (some b) x h = cc
same_fd-is_at (some a) none x h = cc
same_fd-is_at (some a) (some b) x h = ground arith

above_or :
    (a b c : Bool) (file : Option ℕ)
    → erased (a && b) (erased (a && c) file) ≡ erased (a && (c || b)) file
above_or true b c file = erased_or b c file
above_or false b c file = refl

input_output-erased :
    (in_fd out_fd : Option ℕ) (t : Table) (x : ℕ)
    → close_duplicated_fd out_fd (close_duplicated_fd in_fd t) x
      ≡ erased (ltb 2 x && (is_at x in_fd || is_at x out_fd)) (t x)
input_output-erased in_fd out_fd t x =
    close_duplicated_fd-erased out_fd _ x
    ∙ ap (erased (is_above x out_fd)) (close_duplicated_fd-erased in_fd t x)
    ∙ above_or (ltb 2 x) (is_at x out_fd) (is_at x in_fd) (t x)

close_duplicated-erased :
    (plan : IoPlan) (in_fd : Option ℕ) (t : Table) (x : ℕ)
    → close_duplicated plan in_fd t x
      ≡ erased (ltb 2 x && ((is_at x in_fd || is_at x plan.out_fd) || is_at x plan.err_fd)) (t x)
close_duplicated-erased plan in_fd t x = elim (Bool-cases (same_fd plan.err_fd plan.out_fd)) [
  | inl same ↦ rw (same) (
      input_output-erased in_fd plan.out_fd t x
      ∙ ground (arith, same_fd-is_at plan.err_fd plan.out_fd x same))
  | inr other ↦ rw (other) (
      close_duplicated_fd-erased plan.err_fd _ x
      ∙ ap (erased (is_above x plan.err_fd)) (input_output-erased in_fd plan.out_fd t x)
      ∙ above_or (ltb 2 x) (is_at x plan.err_fd) (is_at x in_fd || is_at x plan.out_fd) (t x))
]

-- What the child closes, below and above the standard descriptors.
abbrev pub is_dropped : Pipes → IoPlan → Option ℕ → List (Option ℕ) → ℕ → Bool
is_dropped pipes plan in_fd extra x =
    ((among_pipes x pipes || above_among x extra)
      || (is_end x plan.ordinary_pipe || is_at x plan.redirect_fd))
    || (ltb 2 x && ((is_at x in_fd || is_at x plan.out_fd) || is_at x plan.err_fd))

pub child_table-erased :
    (pipes : Pipes) (plan : IoPlan) (in_fd : Option ℕ) (extra : List (Option ℕ)) (t : Table) (x : ℕ)
    → child_table pipes plan in_fd extra t x
      ≡ erased (is_dropped pipes plan in_fd extra x) (duplicate plan in_fd t x)
unfolding child_table
child_table-erased pipes plan in_fd extra t x =
    close_duplicated-erased plan in_fd _ x
    ∙ ap (erased (ltb 2 x && ((is_at x in_fd || is_at x plan.out_fd) || is_at x plan.err_fd))) (
        close_ends-erased plan _ x
        ∙ ap (erased (is_end x plan.ordinary_pipe || is_at x plan.redirect_fd)) (
            close_extra_fds_in_child-erased extra _ x
            ∙ ap (erased (above_among x extra)) (close_numbered_pipes_in_child-erased pipes _ x)
            ∙ erased_or (above_among x extra) (among_pipes x pipes) _)
        ∙ erased_or (is_end x plan.ordinary_pipe || is_at x plan.redirect_fd)
            (among_pipes x pipes || above_among x extra) _)
    ∙ erased_or (ltb 2 x && ((is_at x in_fd || is_at x plan.out_fd) || is_at x plan.err_fd)) _ _
