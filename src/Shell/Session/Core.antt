-- ===== src/Shell/Session/Core.antt =====
-- The shell of project 1 executes lines as the core of project 2 does with its default configuration.
use network_programming.Base.{
  ℕ, Bool, true, false, List, [], ◌∷◌, none, some, is_empty, ◌≡◌, refl, ap, ◌∙◌, fun_ext, ◌>>=◌,
}
use network_programming.Shell.Command.{Command}
use network_programming.Shell.Session
use network_programming.Shell.Session.{io_plan}
use network_programming.ShellCore.Execute.{ExecutionConfig, Running, Prepared}
use network_programming.ShellCore.Execute
use network_programming.ShellCore.Line
use network_programming.ShellCore.Line.{Row, Loop, Executed}
use network_programming.ShellCore.Os.{Os, System}
use network_programming.ShellCore.State.{ShellState}

-- ExecutionConfig, as it is made
abbrev pub default_config : ExecutionConfig
default_config = record {
  input_fd = none;
  output_fd = some 1;
  error_fd = some 2;
  force_last_output = false;
}

module _ (system : System) where
  prepare_io_plan-default :
      (command : Command) (segment : ℕ) (first last : Bool) (r : Running)
      → Execute.prepare_io_plan system default_config command segment first last r
        ≡ Session.prepare_io_plan system command segment r
  unfolding Execute.prepare_io_plan Session.prepare_io_plan
  prepare_io_plan-default command segment true true r = refl
  prepare_io_plan-default command segment true false r = refl
  prepare_io_plan-default command segment false true r = refl
  prepare_io_plan-default command segment false false r = refl

  execute_row-default :
      (first last : Bool) (row : Row) (l : Loop)
      → Line.execute_row system default_config first last row l ≡ Session.execute_row system row l
  unfolding Line.execute_row Session.execute_row
  execute_row-default first last row l = rw (prepare_io_plan-default) refl

  execute_rows-default :
      (first : Bool) (rows : List Row) (l : Loop)
      → Line.execute_rows system default_config first rows l ≡ Session.execute_rows system rows l
  unfolding Line.execute_rows Session.execute_rows
  execute_rows-default first [] l = refl
  execute_rows-default first (row ∷ rows) l =
      ap (λ o. o >>= Line.execute_rows system default_config false rows)
        (execute_row-default first (is_empty rows) row l)
      ∙ ap (λ next. Session.execute_row system row l >>= next)
          (fun_ext λ l'. execute_rows-default false rows l')

  -- The shell of project 1 executes every line from every state as the core of project 2 does when no
  -- input is configured, output and error are the standard ones, and no output is forced.
  pub execute_external_commands-default :
      (commands : List Command) (shell : ShellState) (os : Os)
      → Line.execute_external_commands system default_config commands shell os
        ≡ Session.execute_external_commands system commands shell os
  unfolding Line.execute_external_commands Session.execute_external_commands
  execute_external_commands-default commands shell os = rw (execute_rows-default) refl
