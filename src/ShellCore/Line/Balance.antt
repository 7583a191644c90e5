-- ===== src/ShellCore/Line/Balance.antt =====
-- A line leaves no descriptor behind.
use network_programming.Base.{
  ℕ, ◌+◌, Bool, List, [], ◌∷◌, Option, none, some, if◌then◌else◌, is_empty, ◌≡◌, arith, refl,
  length, map, ap,
}
use network_programming.Shell.Command.{Command}
use network_programming.Shell.Plan.{build_line_plan, build_waitability}
use network_programming.ShellCore.Execute.Attach.{table}
use network_programming.ShellCore.Line.{Row, rows_of, Executed}
use network_programming.ShellCore.Os.Balance.{Balanced, RefusesPipe}
use network_programming.ShellCore.Os.{Os, System}
use network_programming.ShellCore.State.{ShellState}

-- The configured input that a line does not take: it is taken by the first command, if that has a
-- word.
abbrev pub input_left : List Command → Option ℕ → Option ℕ
input_left [] input = input
input_left (c ∷ cs) input = if is_empty c.argv then input else none

-- No command of the line is lost in the rows.
pub map-rows_of :
    (cs : List Command) (segments : List ℕ) (starts waitable : List Bool)
    → length segments ≡ length cs
    → length starts ≡ length cs
    → length waitable ≡ length cs
    → map (λ (r : Row). r.command) (rows_of cs segments starts waitable) ≡ cs
unfolding rows_of
map-rows_of [] segments starts waitable a b c = refl
map-rows_of (x ∷ cs) [] starts waitable a b c = absurd (omega arith)
map-rows_of (x ∷ cs) (n ∷ ns) [] waitable a b c = absurd (omega arith)
map-rows_of (x ∷ cs) (n ∷ ns) (s ∷ ss) [] a b c = absurd (omega arith)
map-rows_of (x ∷ cs) (n ∷ ns) (s ∷ ss) (w ∷ ws) a b c =
    ap (◌∷◌ x) (map-rows_of cs ns ss ws (omega arith) (omega arith) (omega arith))

abbrev line_rows : List Command → ShellState → List Row
line_rows commands shell =
    let plan = build_line_plan shell.executed_segments commands in
    rows_of commands plan.command_segments plan.segment_starts (build_waitability commands)

rows_left : List Row → Option ℕ → Option ℕ
rows_left [] input = input
rows_left (row ∷ rows) input = if is_empty row.command.argv then input else none

-- What a line leaves: the ends of the numbered pipes and the input that it did not take are open
-- beside the descriptors of others, or the shell has exited, since the system refused a pipe.
abbrev pub LeavesLine : System → (ℕ → ℕ) → Option Executed → Type 0
LeavesLine system left none = RefusesPipe system
LeavesLine system left (some e) = Balanced (λ x. left x + table x e.shell.numbered_pipes) e.os
