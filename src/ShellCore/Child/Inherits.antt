-- ===== src/ShellCore/Child/Inherits.antt =====
-- What a process inherits from the shell when it is executed.
use network_programming.Base.{
  ℕ, ◌≤◌, ◌<◌, Bool, true, false, ◌||◌, List, Option, ltb, ◌≡◌, arith, refl, ◌∙◌, ap,
}
use network_programming.Shell.Command.{Command}
use network_programming.ShellCore.Child.{Table, duplicate, child_table, run_child_process}
use network_programming.ShellCore.Child.Streams.{Ready, source, duplicate-Streams}
use network_programming.ShellCore.Child.Table.{
  is_at, is_end, among_pipes, among, erased, is_dropped, child_table-erased,
}
use network_programming.ShellCore.Execute.{IoPlan}
use network_programming.ShellCore.State.{ShellState, Pipes}

-- The ends of pipes and the file that only the shell and this process use.
abbrev pub is_own : Pipes → IoPlan → ℕ → Bool
is_own pipes plan x =
    among_pipes x pipes || (is_end x plan.ordinary_pipe || is_at x plan.redirect_fd)

-- Above the standard descriptors, these are the ones that a process does not inherit.
abbrev pub is_closed : Pipes → IoPlan → Option ℕ → List (Option ℕ) → ℕ → Bool
is_closed pipes plan in_fd extra x =
    (is_own pipes plan x || among x extra)
    || ((is_at x in_fd || is_at x plan.out_fd) || is_at x plan.err_fd)

-- The three standard descriptors come from the plan, and above them is what the shell had open, less
-- what is closed.
pub record Inherits (plan : IoPlan) (in_fd : Option ℕ) (closed : ℕ → Bool) (t t' : Table)
    : Type 0 where
  pub input : t' 0 ≡ source in_fd 0 t
  pub output : t' 1 ≡ source plan.out_fd 1 t
  pub error : t' 2 ≡ source plan.err_fd 2 t
  pub others : (x : ℕ) → 2 < x → t' x ≡ erased (closed x) (t x)

or_swap : (a b c d : Bool) → ((a || b) || c) || d ≡ ((a || c) || b) || d
or_swap true b c d = refl
or_swap false true true d = refl
or_swap false true false d = refl
or_swap false false c d = ap (λ e. e || d) (or_false c)
  where
    or_false : (b : Bool) → b ≡ b || false
    or_false true = refl
    or_false false = refl

or_none : (a c : Bool) → a || c ≡ false → ((a || false) || c) || false ≡ false
or_none true c h = cc
or_none false true h = cc
or_none false false h = refl

module _ (pipes : Pipes) (plan : IoPlan) (in_fd : Option ℕ) (extra : List (Option ℕ)) where
  standard_kept :
      (x : ℕ) → x ≤ 2 → is_own pipes plan x ≡ false → is_dropped pipes plan in_fd extra x ≡ false
  standard_kept x low h =
      let standard : ltb 2 x ≡ false = ground arith in
      rw (standard)
        (or_none (among_pipes x pipes) (is_end x plan.ordinary_pipe || is_at x plan.redirect_fd) h)

  dropped_above :
      (x : ℕ) → 2 < x → is_dropped pipes plan in_fd extra x ≡ is_closed pipes plan in_fd extra x
  dropped_above x high =
      let above : ltb 2 x ≡ true = ground arith in
      rw (above) (
        or_swap (among_pipes x pipes) (among x extra)
          (is_end x plan.ordinary_pipe || is_at x plan.redirect_fd)
          ((is_at x in_fd || is_at x plan.out_fd) || is_at x plan.err_fd))

-- A process that the shell starts has the plan's input, output and error as its standard descriptors,
-- and above them nothing but what the shell had open beside numbered pipes, the plan's own ends and
-- the descriptors of `closeInChild`; it is executed with the command's words. This is so where the
-- plan's descriptors are open and given away in order, and no end of a pipe is a standard descriptor.
pub run_child_process-Inherits :
    (command : Command) (state : ShellState) (plan : IoPlan) (in_fd : Option ℕ)
    (extra : List (Option ℕ)) (t : Table)
    → Ready plan in_fd t
    → ((x : ℕ) → x ≤ 2 → is_own state.numbered_pipes plan x ≡ false)
    → let child = run_child_process command state plan in_fd extra t in
      (child.argv ≡ command.argv)
      × Inherits plan in_fd (is_closed state.numbered_pipes plan in_fd extra) t child.table
unfolding run_child_process
run_child_process-Inherits command state plan in_fd extra t ready own =
    let streams = duplicate-Streams plan in_fd t ready in
    let at = child_table-erased state.numbered_pipes plan in_fd extra t in
    let low : (x : ℕ)
        → x ≤ 2
        → child_table state.numbered_pipes plan in_fd extra t x ≡ duplicate plan in_fd t x =
      λ x h.
        at x
        ∙ ap (λ b. erased b (duplicate plan in_fd t x))
            (standard_kept state.numbered_pipes plan in_fd extra x h (own x h)) in
    (
      refl,
      record {
        input = low 0 (omega arith) ∙ streams.input;
        output = low 1 (omega arith) ∙ streams.output;
        error = low 2 (omega arith) ∙ streams.error;
        others = λ x h.
            at x
            ∙ ap (λ b. erased b (duplicate plan in_fd t x))
                (dropped_above state.numbered_pipes plan in_fd extra x h)
            ∙ ap (erased (is_closed state.numbered_pipes plan in_fd extra x)) (streams.others x h);
      },
    )
