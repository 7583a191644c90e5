-- ===== src/ShellCore/Tests.antt =====
-- Runs of the shell's core, and each theorem at an input that meets its hypotheses.
use network_programming.Base.{
  to_string, ℕ, ◌+◌, true, false, List, [], ◌∷◌, Option, none, some, codes, ◌≡◌, refl, arith, ltb,
  ◌==◌, if◌then◌else◌,
}
use network_programming.Shell.Command.{Command, new_command, ordinary_pipe, number_pipe_out}
use network_programming.Shell.Plan.{build_line_plan, build_waitability}
use network_programming.ShellCore.Execute.{
  ExecutionConfig, prepare_io_plan, attach_incoming_numbered_pipe,
}
use network_programming.ShellCore.Fresh.{fresh_system}
use network_programming.ShellCore.Line.{Executed, execute_external_commands}
use network_programming.ShellCore.Os.{Os, occurs, Spawn, close_fd, create_pipe_or_die, spawn}
use network_programming.ShellCore.Reap.Rounds.{Ends, grace_reap-Ends}
use network_programming.ShellCore.Reap.{Answer, ended, runs, finished, grace_reap}
use network_programming.ShellCore.Token.Sum.{sum_text, sum, parse_number_pipe_count-sum_text}
use network_programming.ShellCore.Token.{is_number_pipe_token, parse_number_pipe_count}
use network_programming.ShellCore.State.{new_shell, pipe_at, without}

abbrev standard_fds : List ℕ
standard_fds = 0 ∷ 1 ∷ 2 ∷ []

-- Descriptor 9 is the configured input.
abbrev config : ExecutionConfig
config = record {
  input_fd = some 9;
  output_fd = some 1;
  error_fd = some 2;
  force_last_output = false;
}

abbrev os : Os
os = record { fds = 9 ∷ standard_fds; calls = 0; faults = 0; spawned = [] }

-- cat | number |1
abbrev commands : List Command
commands =
    record new_command { argv = codes "cat" ∷ []; next_type = ordinary_pipe }
    ∷ record new_command { argv = codes "number" ∷ []; next_type = number_pipe_out; next_count = 1 }
    ∷ []

abbrev base : ℕ → ℕ
base x = occurs x standard_fds

spawned_of : Option Executed → List Spawn
spawned_of none = []
spawned_of (some e) = e.os.spawned

-- The first command reads the input, the second one the first one's pipe, and writes to the new
-- numbered pipe.
spawned_by_line :
    spawned_of (execute_external_commands fresh_system config commands new_shell os)
    ≡ record { argv = codes "cat" ∷ []; in_fd = some 9; out_fd = some 11; err_fd = some 2 }
      ∷ record { argv = codes "number" ∷ []; in_fd = some 10; out_fd = some 12; err_fd = some 2 }
      ∷ []
unfolding spawned_of execute_external_commands build_line_plan build_waitability prepare_io_plan
    attach_incoming_numbered_pipe pipe_at without close_fd create_pipe_or_die spawn
spawned_by_line = refl

-- The first process has ended when it is first asked for, the second one at its second time.
abbrev answers : ℕ → ℕ → Answer
answers call pid = if pid == 7 then ended else if ltb call 2 then runs else ended

grace_reap-Ends_example : Ends answers 0 (7 ∷ 8 ∷ []) (grace_reap answers (7 ∷ 8 ∷ []) 0)
grace_reap-Ends_example = grace_reap-Ends answers (7 ∷ 8 ∷ []) 0

both_reaped :
    grace_reap answers (7 ∷ 8 ∷ []) 0
    ≡ finished (record { pid = 7; is_done = true } ∷ record { pid = 8; is_done = true } ∷ [])
unfolding grace_reap
both_reaped = refl

-- |12+3
parse_number_pipe_count-sum_text_example :
    (is_number_pipe_token (b'|' ∷ sum_text 12 (3 ∷ [])) b'|' ≡ true)
    × (parse_number_pipe_count (b'|' ∷ sum_text 12 (3 ∷ [])) ≡ some (12 + sum (3 ∷ [])))
parse_number_pipe_count-sum_text_example =
    parse_number_pipe_count-sum_text b'|' 12 (3 ∷ []) (omega arith)

sum_in_line : sum_text 12 (3 ∷ []) ≡ codes "12+3"
unfolding to_string
sum_in_line = refl
