-- ===== src/Shell/Session/Tests.antt =====
-- Runs of the shell's loop, and each theorem at an input that meets its hypotheses.
use network_programming.Base.{
  ℕ, List, [], ◌∷◌, none, some, Text, codes, inr, ◌≡◌, refl, arith, trim_cr, stoi,
}
use network_programming.Shell.Command.{Command, new_command, number_pipe_out}
use network_programming.Shell.Parse.{parse_line, classify}
use network_programming.Shell.Plan.{build_line_plan, build_waitability}
use network_programming.Shell.Session
use network_programming.Shell.Session.{Session, Ending, input_over, exited, run_line, run_lines}
use network_programming.Shell.Session.Child
use network_programming.Shell.Session.Child.{IsPlan, child_table-same}
use network_programming.ShellCore.Child as CoreChild
use network_programming.ShellCore.Execute.{IoPlan, attach_incoming_numbered_pipe}
use network_programming.ShellCore.Fresh.{fresh_system}
use network_programming.ShellCore.Line
use network_programming.ShellCore.Os.{Os, close_fd, create_pipe_or_die, spawn}
use network_programming.ShellCore.State.{Pipes, new_shell, pipe_at, without, discard_incoming_pipe}

abbrev standard_fds : List ℕ
standard_fds = 0 ∷ 1 ∷ 2 ∷ []

abbrev os : Os
os = record { fds = standard_fds; calls = 0; faults = 0; spawned = [] }

abbrev session : Session
session = record { shell = new_shell; os = os; output = [] }

abbrev lines : List Text
lines = codes "ls |1" ∷ codes "cat" ∷ codes "exit" ∷ codes "ls" ∷ []

-- `cat` reads the pipe that `ls` writes, and `exit` ends the shell.
spawned_by_lines :
    (run_lines fresh_system lines session).1.os.spawned
    ≡ record { argv = codes "ls" ∷ []; in_fd = none; out_fd = some 4; err_fd = some 2 }
      ∷ record { argv = codes "cat" ∷ []; in_fd = some 3; out_fd = some 1; err_fd = some 2 }
      ∷ []
unfolding run_lines run_line trim_cr parse_line classify stoi Session.execute_external_commands
    Session.is_builtin build_line_plan build_waitability Session.prepare_io_plan
    attach_incoming_numbered_pipe pipe_at without close_fd create_pipe_or_die spawn
    discard_incoming_pipe Line.rows_of Line.finish_line Line.start_command
spawned_by_lines = refl

abbrev commands : List Command
commands =
    record new_command { argv = codes "ls" ∷ []; next_type = number_pipe_out; next_count = 1 } ∷ []

-- ls !1, whose pipe is 4 and 5; 3 is its input.
abbrev both_plan : IoPlan
both_plan = record Session.io_plan { out_fd = some 5; err_fd = some 5 }

both_plan-IsPlan : IsPlan both_plan (some 3)
both_plan-IsPlan = record { input = omega arith; output = inr (omega arith); error = inr refl }

abbrev pending : Pipes
pending = (1, record { read_fd = some 4; write_fd = some 5 }) ∷ []

child_table-same_example :
    Child.child_table pending both_plan (some 3) some 5
    ≡ CoreChild.child_table pending both_plan (some 3) [] some 5
child_table-same_example = child_table-same pending both_plan (some 3) some 5 both_plan-IsPlan
