-- ===== src/Multi/Line/Kept.antt =====
-- np_multi_proc.cpp: the shared memory across the lines of a session.
use network_programming.Base.{
  ℕ, Bool, true, false, not, List, [], ◌∷◌, ◌++◌, Option, none, some, Text, is_empty, trim_cr,
  words,
}
use network_programming.Multi.Builtins.Kept.{IsHere, IsFair, Serves, handle_rwg_builtin-Serves}
use network_programming.Multi.Line.{
  is_exit, unless, config_of, executed, execute_external, built, shell_builtin, execute_commands,
  execute_parsed, execute_line, execute_lines, serve_reads,
}
use network_programming.Multi.Pipes.Kept.{resolve_user_pipes-Serves, close-Serves}
use network_programming.Multi.Process.{Process, World, Run}
use network_programming.Multi.Process.Kept.{
  Ready, Kept, bind, then_do, either, skip-Keeps, event-Keeps, return-Keeps, from_option-Keeps,
}
use network_programming.Rwg.Input.{take_lines}
use network_programming.Rwg.Parse.{parse_commands}
use network_programming.Rwg.Pipes.{UserPipeRequest}
use network_programming.Shell.Command.{Command}
use network_programming.ShellCore.Execute.{ExecutionConfig}
use network_programming.ShellCore.Line.{Executed, execute_external_commands}
use network_programming.ShellCore.Os.{Os}
use network_programming.ShellCore.State.{ShellState, execute_shell_builtin}

module _ (me : ℕ) {world : World} (fair : IsFair me world) where
  unless-Serves :
      (b : Bool) (rest : Process (Unit {0}))
      → Serves me world rest
      → Serves me world (unless b rest)
  unless-Serves true rest serves = skip-Keeps
  unless-Serves false rest serves = serves

  execute_external-Serves :
      (commands : List Command) (config : ExecutionConfig)
      → Serves me world (execute_external commands config)
  execute_external-Serves commands config = record {
    kept = λ run ready.
        go run ready (execute_external_commands world.system config commands run.shell run.os);
  }
    where
      go :
          (run : Run)
          → Ready (IsHere me) run
          → (e : Option Executed) → Kept (IsHere me) (executed run e)
      go run ready none = ready.left
      go run ready (some e) = record { left = ready.left; shared = ready.shared }

  shell_builtin-Serves : (commands : List Command) → Serves me world (shell_builtin commands)
  shell_builtin-Serves [] = record { kept = λ run ready. ready }
  shell_builtin-Serves (c ∷ d ∷ commands) = record { kept = λ run ready. ready }
  shell_builtin-Serves (c ∷ []) = record {
    kept = λ run ready. go run ready (execute_shell_builtin c run.shell run.os);
  }
    where
      go :
          (run : Run)
          → Ready (IsHere me) run
          → (e : Option ((ShellState × Os) × Text)) → Kept (IsHere me) (built run e)
      go run ready none = ready
      go run ready (some ((shell, os), output)) = record {
        left = ready.left;
        shared = ready.shared;
      }

  module _ (client_fd : ℕ) where
    execute_parsed-Serves :
        (line : Text) (parsed : List Command × UserPipeRequest)
        → Serves me world (execute_parsed me client_fd line parsed)
    unfolding execute_commands
    execute_parsed-Serves line ([], request) = skip-Keeps
    execute_parsed-Serves line (c ∷ commands, request) =
        bind (shell_builtin-Serves (c ∷ commands)) (λ is_builtin. unless-Serves is_builtin _ (
          bind (resolve_user_pipes-Serves me fair line request) (λ r.
            then_do (execute_external-Serves (c ∷ commands) (config_of client_fd r))
              (close-Serves me fair line r.output_fd))))

    execute_line-Serves : (line : Text) → Serves me world (execute_line me client_fd line)
    unfolding execute_line
    execute_line-Serves line = either (is_empty (trim_cr line)) (return-Keeps true) (
        either (is_exit (words (trim_cr line))) (return-Keeps false) (
          then_do
            (bind (handle_rwg_builtin-Serves me fair (trim_cr line)) (λ is_builtin.
              unless-Serves is_builtin _ (
                bind (from_option-Keeps (parse_commands (trim_cr line)))
                  (execute_parsed-Serves (trim_cr line)))))
            (return-Keeps true)))

    execute_lines-Serves : (lines : List Text) → Serves me world (execute_lines me client_fd lines)
    unfolding execute_lines
    execute_lines-Serves [] = return-Keeps true
    execute_lines-Serves (line ∷ lines) = bind (execute_line-Serves line) (λ keep_running.
        either keep_running (then_do (event-Keeps _) (execute_lines-Serves lines))
          (return-Keeps false))

    pub serve_reads-Serves :
        (reads : List Text) (buffer : Text)
        → Serves me world (serve_reads me client_fd buffer reads)
    unfolding serve_reads
    serve_reads-Serves [] buffer = skip-Keeps
    serve_reads-Serves (bytes ∷ reads) buffer =
        let (lines, rest) = take_lines [] (buffer ++ bytes) in
        bind (execute_lines-Serves lines)
          (λ keep_running. unless-Serves (not keep_running) _ (serve_reads-Serves reads rest))
