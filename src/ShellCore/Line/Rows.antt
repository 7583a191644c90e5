-- ===== src/ShellCore/Line/Rows.antt =====
-- The loop over the commands of a line keeps every descriptor accounted for.
use network_programming.Base.{
  ℕ, ◌+◌, Bool, true, false, List, [], ◌∷◌, Option, none, some, is_empty, ◌≡◌, arith, refl,
  Bool-cases, inl, inr, if_both, ◌>>=◌,
}
use network_programming.ShellCore.Execute.{
  ExecutionConfig, IoPlan, Running, Prepared, exits, fails, planned,
}
use network_programming.ShellCore.Execute.Attach.{
  account, Accounted, table, attach_incoming_numbered_pipe-Accounted,
}
use network_programming.ShellCore.Execute.Balance.{
  of_plan, Prepares, untaken, prepare_io_plan-Prepares,
}
use network_programming.ShellCore.Line.{
  Row, Loop, start_command, prepared, attach_first, execute_row, execute_rows,
}
use network_programming.ShellCore.Os.Balance.{
  one, Balanced, Balanced-account, close_fd-Balanced, spawn-Balanced, IsPosix, RefusesPipe,
}
use network_programming.ShellCore.Os.{System}

module _ (base : ℕ → ℕ) where
  start_command-Accounted :
      (row : Row) (l : Loop) (r : Running) (plan : IoPlan)
      → Balanced (λ x. account base r x + of_plan base plan x) r.os
      → Accounted base (start_command row l r plan).running
  unfolding start_command
  start_command-Accounted row l r plan b =
      let rest : ℕ → ℕ = λ x. base x + one x plan.next_in_fd + table x r.shell.numbered_pipes in
      close_fd-Balanced _ plan.redirect_fd (λ x. omega arith)
        (close_fd-Balanced (λ x. one x plan.redirect_fd + rest x) plan.ordinary_pipe.write_fd
          (λ x. refl)
          (close_fd-Balanced
            (λ x. one x plan.ordinary_pipe.write_fd + (one x plan.redirect_fd + rest x)) r.in_fd
            (λ x. omega arith) (spawn-Balanced _ b)))

  module _ {system : System} (posix : IsPosix system) (config : ExecutionConfig) where
    abbrev pub LoopAccounted : Option Loop → Type 0
    LoopAccounted none = RefusesPipe system
    LoopAccounted (some l) = Accounted base l.running

    prepared-Accounted :
        (row : Row) (l : Loop) (p : Prepared)
        → Prepares base posix p
        → LoopAccounted (prepared row l p)
    prepared-Accounted row l exits h = h
    prepared-Accounted row l (fails r) h = h
    prepared-Accounted row l (planned r plan) h = start_command-Accounted row l r plan h

    abbrev with_untaken : Bool → Running → ℕ → ℕ
    with_untaken first r x = account base r x + one x (untaken base posix config first)

    attach_first-Accounted :
        (row : Row) (first : Bool) (r : Running)
        → Balanced (with_untaken first r) r.os
        → Balanced (with_untaken first (attach_first row r)) (attach_first row r).os
    unfolding attach_first
    attach_first-Accounted row first r b =
        if_both (λ (r' : Running). Balanced (with_untaken first r') r'.os) row.starts
          (Balanced-account _ (λ x. omega arith)
            (attach_incoming_numbered_pipe-Accounted
              (λ x. base x + one x (untaken base posix config first)) row.segment r
              (Balanced-account _ (λ x. omega arith) b)))
          b

    pub execute_row-Accounted :
        (first last : Bool) (row : Row) (l : Loop)
        → is_empty row.command.argv ≡ false
        → Balanced (with_untaken first l.running) l.running.os
        → LoopAccounted (execute_row system config first last row l)
    unfolding execute_row
    execute_row-Accounted first last row l some_word b = rw (some_word) (
        prepared-Accounted row l _ (
          prepare_io_plan-Prepares base posix config row.command row.segment first last _
            (attach_first-Accounted row first l.running b)))

    idle_row :
        (first last : Bool) (row : Row) (l : Loop)
        → is_empty row.command.argv ≡ true
        → execute_row system config first last row l ≡ some l
    unfolding execute_row
    idle_row first last row l nothing = rw (nothing) refl

    later_row-Accounted :
        (last : Bool) (row : Row) (l : Loop)
        → Accounted base l.running
        → LoopAccounted (execute_row system config false last row l)
    later_row-Accounted last row l b = elim (Bool-cases (is_empty row.command.argv)) [
      | inl nothing ↦ rw (idle_row false last row l nothing) b
      | inr some_word ↦
          execute_row-Accounted false last row l some_word (Balanced-account _ (λ x. omega arith) b)
    ]

    pub then-Accounted :
        (o : Option Loop) (next : Loop → Option Loop)
        → LoopAccounted o
        → ((l : Loop) → Accounted base l.running → LoopAccounted (next l))
        → LoopAccounted (o >>= next)
    then-Accounted none next h k = h
    then-Accounted (some l) next h k = k l h

    pub later_rows-Accounted :
        (rows : List Row) (l : Loop)
        → Accounted base l.running
        → LoopAccounted (execute_rows system config false rows l)
    unfolding execute_rows
    later_rows-Accounted [] l b = b
    later_rows-Accounted (row ∷ rows) l b =
        then-Accounted (execute_row system config false (is_empty rows) row l)
          (execute_rows system config false rows) (later_row-Accounted (is_empty rows) row l b)
          (later_rows-Accounted rows)
