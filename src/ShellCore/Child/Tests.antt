-- ===== src/ShellCore/Child/Tests.antt =====
-- A process in the middle of a line.
use network_programming.Base.{
  ◌+◌, [], ◌∷◌, none, some, codes, ltb, if◌then◌else◌, ◌≡◌, refl, arith, map,
}
use network_programming.Shell.Command.{Command, new_command}
use network_programming.ShellCore.Child.{Table, run_child_process}
use network_programming.ShellCore.Child.Inherits.{Inherits, is_closed, run_child_process-Inherits}
use network_programming.ShellCore.Child.Streams.{Ready}
use network_programming.ShellCore.Execute.{IoPlan}
use network_programming.ShellCore.State.{ShellState, new_shell}

-- Ten descriptors are open.
abbrev table : Table
table x = if ltb x 10 then some (x + 100) else none

-- The output is the pipe to the next command, 4 and 5.
abbrev plan : IoPlan
plan = record {
  out_fd = some 5;
  err_fd = some 2;
  next_in_fd = some 4;
  redirect_fd = none;
  ordinary_pipe = record { read_fd = some 4; write_fd = some 5 };
}

-- A numbered pipe is pending.
abbrev shell : ShellState
shell = record new_shell {
  numbered_pipes = (7, record { read_fd = some 8; write_fd = some 9 }) ∷ [];
}

abbrev command : Command
command = record new_command { argv = codes "number" ∷ [] }

plan-Ready : Ready plan (some 3) table
plan-Ready = record {
  output_free = omega arith;
  error_free = omega arith;
  input_open = (103, refl);
  output_open = (105, refl);
  error_open = (102, refl);
}

run_child_process-Inherits_example :
    let child = run_child_process command shell plan (some 3) (some 6 ∷ []) table in
    (child.argv ≡ command.argv)
    × Inherits plan
        (some 3)
        (is_closed shell.numbered_pipes plan (some 3) (some 6 ∷ []))
        table
        child.table
run_child_process-Inherits_example =
    run_child_process-Inherits command shell plan (some 3) (some 6 ∷ []) table plan-Ready
      (λ x h. ground arith)

-- 7 is a descriptor of another part of the process.
inherited :
    map
      (run_child_process command shell plan (some 3) (some 6 ∷ []) table).table
      (0 ∷ 1 ∷ 2 ∷ 3 ∷ 4 ∷ 5 ∷ 6 ∷ 7 ∷ 8 ∷ 9 ∷ [])
    ≡ some 103 ∷ some 105 ∷ some 102 ∷ none ∷ none ∷ none ∷ none ∷ some 107 ∷ none ∷ none ∷ []
unfolding run_child_process
inherited = refl
