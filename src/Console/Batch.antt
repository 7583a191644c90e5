-- ===== src/Console/Batch.antt =====
-- RemoteBatchSession and SocksBatchSession of console_components.hpp (project 4): one remote shell,
-- reached directly or through the proxy, driven by the completions of Boost.Asio. As in
-- Console.Session, the operation under way is part of the state.
pub mod Callbacks
pub mod Constant
pub mod Trace
mod Tests
use network_programming.Base.{
  ℕ, ◌+◌, Bool, true, false, List, [], ◌∷◌, ◌++◌, Option, none, some, Text, codes, map, split,
  get_elem?, if◌then◌else◌,
}
use network_programming.Console.Escape.{html_escape_inline, output_text}
use network_programming.Console.Prompt.{received_prompt}
use network_programming.Console.Query.{RemoteSessionConfig, SocksConfig}
use network_programming.Socks.Reply.{accepts_reply}
use network_programming.Socks.Request.{build_socks4a_request}

-- `ended` is a session without an operation: a callback returned without a new one. A completion of
-- another kind than that of the operation does not occur.
pub data Operation : Type 0 where
  ended resolving connecting requesting replying reading writing : Operation

-- A session with a proxy is a SocksBatchSession.
pub record Batch : Type 0 where
  pub config : RemoteSessionConfig
  pub proxy : Option SocksConfig
  pub session_id : ℕ
  pub commands : List Text
  pub next_command : ℕ
  pub prompt_tail : Text
  pub operation : Operation

-- `throws` is the exception of std::stoi for the configured port.
pub data Action : Type 0 where
  resolve : Text → Text → Action
  output : Text → Action
  send : Text → Action
  throws : Action

-- The end of the operation under way: of a resolution, a connection or a write, and of a read. `false`
-- and `none` are an error.
pub data Completion : Type 0 where
  completed : Bool → Completion
  received : Option Text → Completion

abbrev pub Step : Type 0
Step = Batch × List Action

-- The lines of a file, which gives none if it cannot be opened.
unfoldable pub load_commands_inline : Option Text → List Text
load_commands_inline none = []
load_commands_inline (some file) = map (λ line. line ++ b'\n' ∷ []) (split b'\n' file)

unfoldable pub new_batch : RemoteSessionConfig → Option SocksConfig → ℕ → Option Text → Batch
unfolding load_commands_inline
new_batch config proxy session_id file = record {
  config = config;
  proxy = proxy;
  session_id = session_id;
  commands = load_commands_inline file;
  next_command = 0;
  prompt_tail = [];
  operation = ended;
}

abbrev pub goes_to : Operation → Batch → Batch
goes_to operation s = record s { operation = operation }

resolve_remote : Text → Text → Batch → Step
resolve_remote host port s = (goes_to resolving s, resolve host port ∷ [])

start_at : Option SocksConfig → Batch → Step
unfolding resolve_remote
start_at none s = resolve_remote s.config.host s.config.port s
start_at (some proxy) s = resolve_remote proxy.host proxy.port s

unfoldable pub start : Batch → Step
unfolding start_at
start s = start_at s.proxy s

abbrev pub send_request : Option Text → Batch → Step
send_request none s = (goes_to ended s, throws ∷ [])
send_request (some request) s = (goes_to requesting s, send request ∷ [])

-- The callback of `connect_remote`, of either class.
abbrev pub after_connect : Option SocksConfig → Batch → Step
after_connect none s = (goes_to reading s, [])
after_connect (some proxy) s = send_request (build_socks4a_request s.config.host s.config.port) s

abbrev pub write_command : Option Text → Batch → Step
write_command none s = (goes_to reading s, [])
write_command (some command) s = (
  record s { next_command = s.next_command + 1; operation = writing },
  output
        (output_text s.session_id (codes "<b>" ++ html_escape_inline command ++ codes "</b>") false)
      ∷ send command
      ∷ [],
)

unfoldable pub write_next_command : Batch → Step
write_next_command s = write_command (get_elem? s.commands s.next_command) s

abbrev pub with_output : Text → Step → Step
with_output script (s, actions) = (s, output script ∷ actions)

unfoldable pub read_content : Text → Batch → Step
unfolding write_next_command
read_content content s =
    let (tail, found) = received_prompt s.prompt_tail content in
    let t = record s { prompt_tail = tail } in
    let next = write_next_command t in
    with_output (output_text s.session_id content true)
      (if found then next else (goes_to reading t, []))

abbrev pub after_reply : Text → Batch → Step
after_reply reply s = if accepts_reply reply then (goes_to reading s, []) else (goes_to ended s, [])

unfoldable pub complete_at : Operation → Completion → Batch → Step
unfolding read_content
complete_at resolving (completed true) s = (goes_to connecting s, [])
complete_at connecting (completed true) s = after_connect s.proxy s
complete_at requesting (completed true) s = (goes_to replying s, [])
complete_at replying (received (some reply)) s = after_reply reply s
complete_at reading (received (some content)) s = read_content content s
complete_at writing (completed true) s = (goes_to reading s, [])
complete_at _ _ s = (goes_to ended s, [])

unfoldable pub complete : Batch → Completion → Step
unfolding complete_at
complete s c = complete_at s.operation c s

unfoldable pub run : Step → List Completion → Step
unfolding complete
run (s, actions) [] = (s, actions)
run (s, actions) (c ∷ cs) = let (t, more) = complete s c in run (t, actions ++ more) cs
