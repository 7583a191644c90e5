-- ===== src/Console/Session.antt =====
-- RemoteBatchSession of console_components.cpp (project 3): one remote shell, driven by the
-- completions of Boost.Asio. The library runs at most one operation of a session at a time; which one
-- is part of the state, and a completion of any other operation does not occur.
pub mod Trace
use network_programming.Base.{
  trim_cr, ℕ, suc, ◌+◌, Bool, true, false, not, List, [], ◌∷◌, ◌++◌, Option, none, some, Text,
  codes, ◌==◌, length, leb, map, split, get_elem?, if◌then◌else◌,
}
use network_programming.Console.Escape.{make_console_script}
use network_programming.Console.Prompt.{read_content}
use network_programming.Console.Query.{RemoteSessionConfig}

pub data Operation : Type 0 where
  no_operation resolving connecting reading writing : Operation

pub record Session : Type 0 where
  pub config : RemoteSessionConfig
  pub session_id : ℕ
  pub commands : List Text
  pub next_command : ℕ
  pub last_char_was_percent : Bool
  pub finished : Bool
  pub operation : Operation

-- What the session does: a call of `output_`, a call of async_write with the text that its buffer holds
-- at the call (the buffer is a local string, which is gone when the write takes place), closing its
-- socket, and the call of `done_`.
pub data Action : Type 0 where
  output : Text → Action
  send : Text → Action
  close : Action
  done : Action

-- The completions; `some` carries the message of the error code.
pub data Completion : Type 0 where
  resolved connected : Option Text → Completion
  read : Option Text → Completion
  wrote : Bool → Completion

abbrev pub Step : Type 0
Step = Session × List Action

-- The commands of a file's text; `none` is the exception for a file that cannot be opened.
unfoldable pub load_commands : Option Text → Option (List Text)
unfolding trim_cr
load_commands none = none
load_commands (some file) = some (map (λ line. trim_cr line ++ b'\n' ∷ []) (split b'\n' file))

unfoldable pub new_session : RemoteSessionConfig → ℕ → Session
new_session config session_id = record {
  config = config;
  session_id = session_id;
  commands = [];
  next_command = 0;
  last_char_was_percent = false;
  finished = false;
  operation = no_operation;
}

unfoldable pub finish : Session → Step
finish s =
    if s.finished
    then (record s { operation = no_operation }, [])
    else (record s { finished = true; operation = no_operation }, close ∷ done ∷ [])

abbrev with_output : Text → Step → Step
with_output script (s, actions) = (s, output script ∷ actions)

-- The error's message goes to the browser, and the session ends.
fail : Session → Text → Step
unfolding finish
fail s message =
    with_output (make_console_script s.session_id (message ++ b'\n' ∷ []) false) (finish s)

started : Session → Option (List Text) → Step
unfolding fail
started s none = fail s (codes "cannot open test_case/" ++ s.config.file)
started s (some commands) = (record s { commands = commands; operation = resolving }, [])

unfoldable pub start : Session → Option Text → Step
unfolding started
start s file = started s (load_commands file)

send_command : Session → Option Text → Step
unfolding finish
send_command s none = finish s
send_command s (some command) = (
  record s { next_command = s.next_command + 1; operation = writing },
  output (make_console_script s.session_id command true) ∷ send command ∷ [],
)

-- `next_command_ >= commands_.size()` is an index with no element.
unfoldable pub send_next_command : Session → Step
unfolding send_command
send_next_command s = send_command s (get_elem? s.commands s.next_command)

read_text : Session → Text → Step
unfolding send_next_command
read_text s content =
    let (flag, has_prompt) = read_content s.last_char_was_percent content in
    let t = record s { last_char_was_percent = flag } in
    let waiting : Step = (record t { operation = reading }, []) in
    with_output (make_console_script s.session_id content false)
      (if has_prompt then send_next_command t else waiting)

complete_at : Operation → Session → Completion → Step
unfolding fail finish read_text
complete_at resolving s (resolved none) = (record s { operation = connecting }, [])
complete_at resolving s (resolved (some message)) = fail s message
complete_at connecting s (connected none) = (record s { operation = reading }, [])
complete_at connecting s (connected (some message)) = fail s message
complete_at reading s (read none) = finish s
complete_at reading s (read (some content)) = read_text s content
complete_at writing s (wrote true) = (record s { operation = reading }, [])
complete_at writing s (wrote false) = finish s
complete_at _ s _ = (s, [])

unfoldable pub complete : Session → Completion → Step
unfolding complete_at
complete s c = complete_at s.operation s c

unfoldable pub run : Step → List Completion → Step
run (s, actions) [] = (s, actions)
run (s, actions) (c ∷ cs) = let (s', more) = complete s c in run (s', actions ++ more) cs
