-- ===== src/Shell/Session/Child.antt =====
-- shell_core.h of project 1: `runChildProcess` of ShellSession, which closes in another order than
-- project 2 does, compared with it.
use network_programming.Base.{
  sym, ℕ, ◌≤◌, ◌<◌, Bool, true, false, not, ◌&&◌, ◌||◌, [], Option, none, some, ltb, ◌==◌,
  if◌then◌else◌, ◌≡◌, ◌⊎◌, inl, inr, arith, refl, ◌∙◌, ap, Bool-cases,
}
use network_programming.ShellCore.Child
use network_programming.ShellCore.Child.{
  Table, close, close_entry, close_ends, close_numbered_pipes_in_child, duplicate,
}
use network_programming.ShellCore.Child.Streams.{AtLeast}
use network_programming.ShellCore.Child.Table.{
  is_at, is_end, among_pipes, above_among, erased, erased_or, is_dropped, close_entry-erased,
  close_ends-erased, close_numbered_pipes_in_child-erased, child_table-erased,
}
use network_programming.ShellCore.Execute.{IoPlan}
use network_programming.ShellCore.State.{Pipes}

-- `if (childOutFd >= 0 && childOutFd != STDOUT_FILENO)`
abbrev pub close_output : Option ℕ → Table → Table
close_output none t = t
close_output (some fd) t = if fd == 1 then t else close fd t

abbrev pub close_child_io : IoPlan → Option ℕ → Table → Table
close_child_io plan in_fd t = close_output plan.out_fd (close_entry in_fd (close_ends plan t))

-- The child's table at `execvp`; closeAllNumberedPipesInChild is the loop of project 2.
unfoldable pub child_table : Pipes → IoPlan → Option ℕ → Table → Table
child_table pipes plan in_fd t =
    close_numbered_pipes_in_child pipes (close_child_io plan in_fd (duplicate plan in_fd t))

abbrev pub is_output : ℕ → Option ℕ → Bool
is_output x o = not (x == 1) && is_at x o

close_output-erased :
    (o : Option ℕ) (t : Table) (x : ℕ) → close_output o t x ≡ erased (is_output x o) (t x)
close_output-erased none t x = ground arith
close_output-erased (some fd) t x = ground arith

child_table-erased_here :
    (pipes : Pipes) (plan : IoPlan) (in_fd : Option ℕ) (t : Table) (x : ℕ)
    → child_table pipes plan in_fd t x
      ≡ erased
          ((((is_end x plan.ordinary_pipe || is_at x plan.redirect_fd) || is_at x in_fd)
              || is_output x plan.out_fd)
            || among_pipes x pipes)
          (duplicate plan in_fd t x)
unfolding child_table
child_table-erased_here pipes plan in_fd t x =
    close_numbered_pipes_in_child-erased pipes _ x
    ∙ ap (erased (among_pipes x pipes)) (
        close_output-erased plan.out_fd _ x
        ∙ ap (erased (is_output x plan.out_fd)) (
            close_entry-erased in_fd _ x
            ∙ ap (erased (is_at x in_fd)) (close_ends-erased plan (duplicate plan in_fd t) x)
            ∙ erased_or (is_at x in_fd) _ _)
        ∙ erased_or (is_output x plan.out_fd) _ _)
    ∙ erased_or (among_pipes x pipes) _ _

-- The input and the output of a plan of project 1: the output is the standard one or above it, and the
-- error output is the standard one or the output.
pub record IsPlan (plan : IoPlan) (in_fd : Option ℕ) : Type 0 where
  pub input : AtLeast 3 in_fd
  pub output : (plan.out_fd ≡ some 1) ⊎ AtLeast 3 plan.out_fd
  pub error : (plan.err_fd ≡ some 2) ⊎ (plan.err_fd ≡ plan.out_fd)

at_above : (x : ℕ) (o : Option ℕ) → AtLeast 3 o → x ≤ 2 → is_at x o ≡ false
at_above x none a h = refl
at_above x (some fd) a h = ground arith

output_low : (x : ℕ) (o : Option ℕ) → (o ≡ some 1) ⊎ AtLeast 3 o → x ≤ 2 → is_output x o ≡ false
output_low x o (inl e) h = rw (e) (ground arith)
output_low x o (inr a) h = rw (at_above x o a h) (ground arith)

error_high :
    (x : ℕ) (err out : Option ℕ)
    → (err ≡ some 2) ⊎ (err ≡ out)
    → 2 < x
    → is_at x out || is_at x err ≡ is_output x out
error_high x err out (inl e) h = rw (e) (ground arith)
error_high x err out (inr e) h = rw (e) (ground arith)

or_assoc : (a b c : Bool) → (a || b) || c ≡ a || (b || c)
or_assoc true b c = refl
or_assoc false b c = refl

duplicated_same :
    (plan : IoPlan) (in_fd : Option ℕ) (x : ℕ)
    → IsPlan plan in_fd
    → is_at x in_fd || is_output x plan.out_fd
      ≡ ltb 2 x && ((is_at x in_fd || is_at x plan.out_fd) || is_at x plan.err_fd)
duplicated_same plan in_fd x p = elim (Bool-cases (ltb 2 x)) [
  | inl high ↦ rw (high) (
      ap (λ b. is_at x in_fd || b)
        (sym (error_high x plan.err_fd plan.out_fd p.error (ground arith)))
      ∙ sym (or_assoc (is_at x in_fd) (is_at x plan.out_fd) (is_at x plan.err_fd)))
  | inr low ↦
      rw
        (
          low,
          at_above x in_fd p.input (ground arith),
          output_low x plan.out_fd p.output (ground arith),
        )
        refl
]

or_last : (a b c d : Bool) → (((a || b) || c) || d) ≡ (((d || false) || a) || (b || c))
or_last a b c true = or_true ((a || b) || c)
  where
    or_true : (e : Bool) → e || true ≡ true
    or_true true = refl
    or_true false = refl
or_last true b c false = refl
or_last false true c false = refl
or_last false false true false = refl
or_last false false false false = refl

nothing_above : (b : Bool) → b && false ≡ false
nothing_above true = refl
nothing_above false = refl

same_dropped :
    (pipes : Pipes) (plan : IoPlan) (in_fd : Option ℕ) (x : ℕ)
    → IsPlan plan in_fd
    → ((((is_end x plan.ordinary_pipe || is_at x plan.redirect_fd) || is_at x in_fd)
          || is_output x plan.out_fd)
        || among_pipes x pipes)
      ≡ is_dropped pipes plan in_fd [] x
same_dropped pipes plan in_fd x p =
    or_last (is_end x plan.ordinary_pipe || is_at x plan.redirect_fd) (is_at x in_fd)
      (is_output x plan.out_fd) (among_pipes x pipes)
    ∙ ap
        (λ b.
          ((among_pipes x pipes || b) || (is_end x plan.ordinary_pipe || is_at x plan.redirect_fd))
          || (is_at x in_fd || is_output x plan.out_fd))
        (sym (nothing_above (ltb 2 x)))
    ∙ ap
        (λ b.
          ((among_pipes x pipes || above_among x [])
            || (is_end x plan.ordinary_pipe || is_at x plan.redirect_fd))
          || b)
        (duplicated_same plan in_fd x p)

-- For every plan of project 1 its processes have the same table as those of project 2 without
-- `closeInChild`.
pub child_table-same :
    (pipes : Pipes) (plan : IoPlan) (in_fd : Option ℕ) (t : Table) (x : ℕ)
    → IsPlan plan in_fd
    → child_table pipes plan in_fd t x ≡ Child.child_table pipes plan in_fd [] t x
child_table-same pipes plan in_fd t x p =
    child_table-erased_here pipes plan in_fd t x
    ∙ ap (λ b. erased b (duplicate plan in_fd t x)) (same_dropped pipes plan in_fd x p)
    ∙ sym (child_table-erased pipes plan in_fd [] t x)
