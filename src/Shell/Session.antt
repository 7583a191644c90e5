-- ===== src/Shell/Session.antt =====
-- The class ShellSession of shell_core.h (project 1): the loop over the lines. The helpers that
-- project 2 has word for word, `attachIncomingNumberedPipe` and what follows `fork` among them, are
-- those of ShellCore.
pub mod Child
pub mod Core
pub mod Balance
mod Tests
use network_programming.Base.{
  ℕ, ◌+◌, Bool, true, false, ◌||◌, List, [], ◌∷◌, ◌++◌, Option, none, some, Text, codes, text_eq,
  trim_cr, free_of, if◌then◌else◌, is_empty, ◌>>=◌,
}
use network_programming.Shell.Command.{Command}
use network_programming.Shell.Parse.{parse_line}
use network_programming.Shell.Plan.{LinePlan, build_line_plan, build_waitability}
use network_programming.ShellCore.Execute.{IoPlan, Running, Prepared, with_redirect, with_next}
use network_programming.ShellCore.Line.{
  Row, rows_of, Loop, prepared, attach_first, Executed, finish_line,
}
use network_programming.ShellCore.Os.{Os, System, no_pipe, open_for_writing}
use network_programming.ShellCore.State.{
  ShellState, discard_incoming_pipe, get_env, set_env, print_value,
}

-- IoPlan, as it is made: standard output and standard error.
abbrev pub io_plan : IoPlan
io_plan = record {
  out_fd = some 1;
  err_fd = some 2;
  next_in_fd = none;
  redirect_fd = none;
  ordinary_pipe = no_pipe;
}

module _ (system : System) where
  unfoldable pub prepare_io_plan : Command → ℕ → Running → Prepared
  unfolding with_next
  prepare_io_plan command segment r =
      if command.redirect_stdout
      then with_redirect io_plan (open_for_writing system command.redirect_file r.os) r
      else with_next system command.next_type segment command.next_count io_plan r

  execute_row : Row → Loop → Option Loop
  unfolding attach_first prepare_io_plan
  execute_row row l =
      if is_empty row.command.argv
      then some l
      else prepared row l (prepare_io_plan row.command row.segment (attach_first row l.running))

  execute_rows : List Row → Loop → Option Loop
  unfolding execute_row
  execute_rows [] l = some l
  execute_rows (row ∷ rows) l = do l' ← execute_row row l; execute_rows rows l'

  unfoldable pub execute_external_commands : List Command → ShellState → Os → Option Executed
  unfolding execute_rows
  execute_external_commands commands shell os = do
    let plan = build_line_plan shell.executed_segments commands
    let rows =
        rows_of commands plan.command_segments plan.segment_starts (build_waitability commands)
    let running : Running = record { shell = shell; os = os; in_fd = none }
    l ← execute_rows rows (record { running = running; wait_list = []; background_list = [] })
    some (finish_line plan.segment_count l)

-- The shell between two lines. The environment of the process is `env` of its state.
pub record Session : Type 0 where
  pub shell : ShellState
  pub os : Os
  pub output : Text

-- How the shell ends: the input ended, `exit`, or an exception or a refused system call.
pub data Ending : Type 0 where
  input_over exited died : Ending

pub data Result : Type 0 where
  goes_on : Session → Result
  stops : Ending → Session → Result

unfoldable pub is_builtin : List Text → Bool
is_builtin [] = false
is_builtin (name ∷ arguments) =
    text_eq name (codes "setenv") || text_eq name (codes "printenv") || text_eq name (codes "exit")

is_exit : List Text → Bool
is_exit [] = false
is_exit (name ∷ arguments) = text_eq name (codes "exit")

-- setenv(variable, value, 1), which refuses a name with an equals sign
set_variable : Text → List Text → Session → Session
set_variable variable [] s = s
set_variable variable (value ∷ more) s =
    if free_of b'=' variable
    then record s { shell = record s.shell { env = set_env s.shell.env variable value } }
    else s

unfoldable pub execute_builtin : List Text → Session → Session
unfolding set_variable
execute_builtin (name ∷ variable ∷ arguments) s =
    if text_eq name (codes "setenv")
    then set_variable variable arguments s
    else if text_eq name (codes "printenv")
    then record s { output = s.output ++ print_value (get_env s.shell.env variable) }
    else s
execute_builtin _ s = s

abbrev count_segment : Session → Session
count_segment s = record s {
  shell = record s.shell { executed_segments = s.shell.executed_segments + 1 };
}

-- tryRunBuiltin, for a command that is one.
run_builtin : List Text → Session → Result
unfolding execute_builtin is_exit
run_builtin argv s =
    let (shell, os) = discard_incoming_pipe (s.shell.executed_segments + 1) s.shell s.os in
    let discarded = record s { shell = shell; os = os } in
    if is_exit argv
    then stops exited discarded
    else goes_on (count_segment (execute_builtin argv discarded))

abbrev after_line : Session → Option Executed → Result
after_line s none = stops died s
after_line s (some e) = goes_on (record s { shell = e.shell; os = e.os })

abbrev pub continue : (Session → Ending × Session) → Result → Ending × Session
continue next (stops ending s) = (ending, s)
continue next (goes_on s) = next s

module _ (system : System) where
  run_commands : Session → List Command → Result
  unfolding run_builtin execute_external_commands
  run_commands s [] = goes_on s
  run_commands s (c ∷ []) =
      if is_builtin c.argv
      then run_builtin c.argv s
      else after_line s (execute_external_commands system (c ∷ []) s.shell s.os)
  run_commands s (c ∷ d ∷ cs) =
      after_line s (execute_external_commands system (c ∷ d ∷ cs) s.shell s.os)

  -- `none` is the exception of std::stoi.
  abbrev run_parsed : Session → Option (List Command) → Result
  run_parsed s none = stops died s
  run_parsed s (some commands) = run_commands s commands

  -- One round of the loop, behind the prompt.
  unfoldable pub run_line : Text → Session → Result
  unfolding run_commands
  run_line line s =
      if is_empty (trim_cr line) then goes_on s else run_parsed s (parse_line (trim_cr line))

  abbrev prompted : Session → Session
  prompted s = record s { output = s.output ++ codes "% " }

  -- The lines that the input still has.
  unfoldable pub run_lines : List Text → Session → Ending × Session
  unfolding run_line
  run_lines [] s = (input_over, prompted s)
  run_lines (line ∷ lines) s = continue (run_lines lines) (run_line line (prompted s))
