-- ===== src/Multi/Line.antt =====
-- np_multi_proc.cpp: `executeLine`, over the core of the shell, and `serveClient`.
pub mod Kept
pub mod Session
pub mod Descriptors
mod Tests
use network_programming.Base.{
  ℕ, Bool, true, false, not, ◌||◌, List, [], ◌∷◌, ◌++◌, Option, none, some, Text, codes, text_eq,
  trim_cr, words, is_empty, if◌then◌else◌,
}
use network_programming.Multi.Builtins.{handle_rwg_builtin}
use network_programming.Multi.Messages.{broadcast_message}
use network_programming.Multi.Pipes.{UserPipeResolution, resolve_user_pipes}
use network_programming.Multi.Process.{
  Process, Outcome, running, gone, Run, Event, ◌>>=◌, ◌>>◌, skip, return, from_option, locked,
  event, wrote, unlinked, close,
}
use network_programming.Multi.Shared.{endpoint}
use network_programming.Multi.Users.{assign_user, clear_user}
use network_programming.Rwg.Clients.{default_name}
use network_programming.Rwg.Input.{take_lines}
use network_programming.Rwg.Parse.{parse_commands}
use network_programming.Rwg.Pipes.{UserPipeRequest}
use network_programming.Rwg.Server.{Peer, welcome}
use network_programming.Shell.Command.{Command}
use network_programming.ShellCore.Execute.{ExecutionConfig, is_some}
use network_programming.ShellCore.Line.{Executed, execute_external_commands}
use network_programming.ShellCore.Os.{Os}
use network_programming.ShellCore.State.{ShellState, execute_shell_builtin, close_shell_state}

abbrev pub is_exit : List Text → Bool
is_exit [] = false
is_exit (name ∷ arguments) = text_eq name (codes "exit")

abbrev pub unless : Bool → Process (Unit {0}) → Process (Unit {0})
unless true rest = skip
unless false rest = rest

unfoldable pub unlink_all : List Text → Process (Unit {0})
unlink_all [] = skip
unlink_all (path ∷ paths) = do event (unlinked path); unlink_all paths

abbrev pub or_client : ℕ → Option ℕ → Option ℕ
or_client client_fd none = some client_fd
or_client client_fd (some fd) = some fd

-- The configuration of a line.
abbrev pub config_of : ℕ → UserPipeResolution → ExecutionConfig
config_of client_fd r = record {
  input_fd = r.input_fd;
  output_fd = or_client client_fd r.output_fd;
  error_fd = some client_fd;
  force_last_output = is_some r.output_fd;
}

abbrev pub executed : Run → Option Executed → Outcome (Unit {0})
executed run none = gone run
executed run (some e) = running tt (record run { shell = e.shell; os = e.os })

-- executeExternalCommands; `none` is its exit, where a pipe cannot be made.
abbrev pub execute_external : List Command → ExecutionConfig → Process (Unit {0})
execute_external commands config world run =
    executed run (execute_external_commands world.system config commands run.shell run.os)

abbrev written : Text → List Event
written [] = []
written (c ∷ s) = wrote (c ∷ s) ∷ []

abbrev pub built : Run → Option ((ShellState × Os) × Text) → Outcome Bool
built run none = running false run
built run (some ((shell, os), output)) =
    running true (record run { shell = shell; os = os; trace = run.trace ++ written output })

-- A line of one command that the shell itself executes.
abbrev pub shell_builtin : List Command → Process Bool
shell_builtin (command ∷ []) world run = built run (execute_shell_builtin command run.shell run.os)
shell_builtin _ world run = running false run

-- `me` is `currentUserId` and `client_fd` is `currentClientFd`.
module _ (me client_fd : ℕ) where
  unfoldable pub execute_commands : Text → List Command → UserPipeRequest → Process (Unit {0})
  execute_commands line commands request = do
    r ← resolve_user_pipes me line request
    execute_external commands (config_of client_fd r)
    close r.output_fd

  abbrev pub execute_parsed : Text → List Command × UserPipeRequest → Process (Unit {0})
  execute_parsed line ([], request) = skip
  execute_parsed line (command ∷ commands, request) = do
    is_builtin ← shell_builtin (command ∷ commands)
    unless is_builtin (execute_commands line (command ∷ commands) request)

  abbrev pub execute_words : Text → Process (Unit {0})
  execute_words line = do
    is_builtin ← handle_rwg_builtin me line
    unless is_builtin (do parsed ← from_option (parse_commands line); execute_parsed line parsed)

  -- `false` is the end of the session.
  unfoldable pub execute_line : Text → Process Bool
  unfolding execute_commands
  execute_line line =
      if is_empty (trim_cr line)
      then return true
      else if is_exit (words (trim_cr line))
      then return false
      else (do execute_words (trim_cr line); return true)

  abbrev pub send_prompt : Process (Unit {0})
  send_prompt = event (wrote (codes "% "))

  -- The lines of the buffer, up to one that ends the session.
  unfoldable pub execute_lines : List Text → Process Bool
  unfolding execute_line
  execute_lines [] = return true
  execute_lines (line ∷ lines) = do
    keep_running ← execute_line line
    if keep_running then (do send_prompt; execute_lines lines) else return false

  -- The reads that bring bytes, until one brings none.
  unfoldable pub serve_reads : Text → List Text → Process (Unit {0})
  unfolding execute_lines
  serve_reads buffer [] = skip
  serve_reads buffer (bytes ∷ reads) = do
    let (lines, rest) = take_lines [] (buffer ++ bytes)
    keep_running ← execute_lines lines
    unless (not keep_running) (serve_reads rest reads)

unfoldable pub cleanup_user : ℕ → Bool → Process (Unit {0})
cleanup_user id announce = do
  leaving ← locked (clear_user id)
  unlink_all leaving.1
  unless (not announce || is_empty leaving.0)
      (broadcast_message id (codes "*** User '" ++ leaving.0 ++ codes "' left. ***\n"))

abbrev pub close_shell : Process (Unit {0})
close_shell world run =
    let (shell, os) = close_shell_state run.shell run.os in
    running tt (record run { shell = shell; os = os })

unfoldable pub enter : ℕ → Process (Unit {0})
enter me = do
  event (wrote welcome)
  address ← (λ world run. running (endpoint (run.shared.users me)) run)
  broadcast_message me
      (codes "*** User '" ++ default_name ++ codes "' entered from " ++ address ++ codes ". ***\n")
  event (wrote (codes "% "))

abbrev pub serve_as : Peer → List Text → Option ℕ → Process (Unit {0})
serve_as peer reads none = close (some peer.fd)
serve_as peer reads (some me) = do
  enter me
  serve_reads me peer.fd [] reads
  close_shell
  cleanup_user me true
  close (some peer.fd)

-- A client's whole session: `assignUser` gives it a number, or the connection is closed.
unfoldable pub serve_client : ℕ → Peer → List Text → Process (Unit {0})
unfolding enter serve_reads cleanup_user
serve_client pid peer reads = do me ← locked (assign_user pid peer); serve_as peer reads me
