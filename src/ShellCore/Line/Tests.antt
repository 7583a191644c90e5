-- ===== src/ShellCore/Line/Tests.antt =====
-- ls |2, then cat, then number, which reads what ls wrote.
use network_programming.Base.{false, [], ◌∷◌, ◌++◌, none, some, codes, ◌≡◌, refl}
use network_programming.Shell.Command.{Command, new_command, number_pipe_out}
use network_programming.Shell.Plan.{build_line_plan, build_waitability}
use network_programming.ShellCore.Execute.{
  ExecutionConfig, prepare_io_plan, attach_incoming_numbered_pipe,
}
use network_programming.ShellCore.Fresh.{fresh_system}
use network_programming.ShellCore.Line.{Executed, execute_external_commands}
use network_programming.ShellCore.Line.Delivery.{
  execute_single_lines, execute_external_commands-delivery,
}
use network_programming.ShellCore.Line.Single.{IsPlain, IsWriter, IsOpenConfig, Runs, spawn_for}
use network_programming.ShellCore.Line.Target.{IsFrom}
use network_programming.ShellCore.Os.{Os, PipeFd, close_fd, create_pipe_or_die, spawn}
use network_programming.ShellCore.State.{ShellState, new_shell, pipe_at, without}

abbrev config : ExecutionConfig
config = record {
  input_fd = none;
  output_fd = some 1;
  error_fd = some 2;
  force_last_output = false;
}

config-IsOpenConfig : IsOpenConfig config
config-IsOpenConfig = record { no_input = refl; not_forced = refl }

abbrev os : Os
os = record { fds = 0 ∷ 1 ∷ 2 ∷ []; calls = 0; faults = 0; spawned = [] }

abbrev ls : Command
ls = record new_command { argv = codes "ls" ∷ []; next_type = number_pipe_out; next_count = 2 }

abbrev cat : Command
cat = record new_command { argv = codes "cat" ∷ [] }

abbrev number : Command
number = record new_command { argv = codes "number" ∷ [] }

ls-IsWriter : IsWriter ls
ls-IsWriter = record { some_word = refl; no_file = refl; numbered = refl }

cat-IsPlain : IsPlain cat
cat-IsPlain = record { some_word = refl; no_file = refl; no_pipe_behind = refl }

number-IsPlain : IsPlain number
number-IsPlain = record { some_word = refl; no_file = refl; no_pipe_behind = refl }

abbrev written : Executed
written = record {
  shell = record new_shell {
    numbered_pipes = (3, record { read_fd = some 3; write_fd = some 4 }) ∷ [];
    executed_segments = 1;
  };
  os = record {
    fds = 3 ∷ 4 ∷ 0 ∷ 1 ∷ 2 ∷ [];
    calls = 1;
    faults = 0;
    spawned = spawn_for ls none (some 4) (some 2) ∷ [];
  };
  waited = [];
  polled = 0 ∷ [];
}

ls_written : execute_external_commands fresh_system config (ls ∷ []) new_shell os ≡ some written
unfolding execute_external_commands build_line_plan build_waitability prepare_io_plan
    attach_incoming_numbered_pipe pipe_at without close_fd create_pipe_or_die spawn
ls_written = refl

execute_external_commands-delivery_example :
    (p : PipeFd) × (later : ShellState) × (later_os : Os) × (e : Executed) × IsFrom fresh_system 3
      [] p
    × Runs ls new_shell os p.write_fd (some 2) written
    × (execute_single_lines fresh_system config config-IsOpenConfig
          (cat ∷ [])
          written.shell
          written.os
        ≡ some (later, later_os))
    × (execute_external_commands fresh_system config (number ∷ []) later later_os ≡ some e)
    × (e.os.spawned ≡ later_os.spawned ++ spawn_for number p.read_fd (some 1) (some 2) ∷ [])
execute_external_commands-delivery_example =
    execute_external_commands-delivery fresh_system config config-IsOpenConfig ls (cat ∷ []) number
      new_shell os written ls-IsWriter refl (cat-IsPlain, tt) number-IsPlain ls_written
