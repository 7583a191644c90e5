-- ===== src/Console/Batch/Constant.antt =====
-- A session keeps its configuration, its proxy and its commands.
use network_programming.Base.{true, false, List, Option, none, some, Text, ◌≡◌, if_both, get_elem?}
use network_programming.Console.Batch.{
  Batch, Operation, ended, resolving, connecting, requesting, replying, reading, writing,
  Completion, completed, received, Step, send_request, after_connect, write_command,
  write_next_command, read_content, complete_at, complete,
}
use network_programming.Console.Prompt.{received_prompt}
use network_programming.Console.Query.{RemoteSessionConfig, SocksConfig}
use network_programming.Socks.Reply.{accepts_reply}
use network_programming.Socks.Request.{build_socks4a_request}

abbrev pub IsOf : RemoteSessionConfig → Option SocksConfig → List Text → Batch → Type 0
IsOf config proxy commands s = (s.config ≡ config) × (s.proxy ≡ proxy) × (s.commands ≡ commands)

module _ {config : RemoteSessionConfig} {proxy : Option SocksConfig} {commands : List Text} where
  send_request-IsOf :
      (built : Option Text) (s : Batch)
      → IsOf config proxy commands s
      → IsOf config proxy commands (send_request built s).0
  send_request-IsOf none s h = h
  send_request-IsOf (some request) s h = h

  after_connect-IsOf :
      (o : Option SocksConfig) (s : Batch)
      → IsOf config proxy commands s
      → IsOf config proxy commands (after_connect o s).0
  after_connect-IsOf none s h = h
  after_connect-IsOf (some p) s h =
      send_request-IsOf (build_socks4a_request s.config.host s.config.port) s h

  write_command-IsOf :
      (o : Option Text) (s : Batch)
      → IsOf config proxy commands s
      → IsOf config proxy commands (write_command o s).0
  write_command-IsOf none s h = h
  write_command-IsOf (some command) s h = h

  read_content-IsOf :
      (content : Text) (s : Batch)
      → IsOf config proxy commands s
      → IsOf config proxy commands (read_content content s).0
  unfolding read_content write_next_command
  read_content-IsOf content s h =
      let t : Batch = record s { prompt_tail = (received_prompt s.prompt_tail content).0 } in
      if_both (λ (step : Step). IsOf config proxy commands step.0)
        (received_prompt s.prompt_tail content).1
        (write_command-IsOf (get_elem? t.commands t.next_command) t h) h

  complete_at-IsOf :
      (operation : Operation) (c : Completion) (s : Batch)
      → IsOf config proxy commands s
      → IsOf config proxy commands (complete_at operation c s).0
  unfolding complete_at
  complete_at-IsOf connecting (completed true) s h = after_connect-IsOf s.proxy s h
  complete_at-IsOf replying (received (some reply)) s h =
      if_both (λ (step : Step). IsOf config proxy commands step.0) (accepts_reply reply) h h
  complete_at-IsOf reading (received (some content)) s h = read_content-IsOf content s h
  complete_at-IsOf ended c s h = h
  complete_at-IsOf resolving (completed true) s h = h
  complete_at-IsOf resolving (completed false) s h = h
  complete_at-IsOf resolving (received o) s h = h
  complete_at-IsOf requesting (completed true) s h = h
  complete_at-IsOf requesting (completed false) s h = h
  complete_at-IsOf requesting (received o) s h = h
  complete_at-IsOf writing (completed true) s h = h
  complete_at-IsOf writing (completed false) s h = h
  complete_at-IsOf writing (received o) s h = h
  complete_at-IsOf connecting (completed false) s h = h
  complete_at-IsOf connecting (received o) s h = h
  complete_at-IsOf replying (completed b) s h = h
  complete_at-IsOf replying (received none) s h = h
  complete_at-IsOf reading (completed b) s h = h
  complete_at-IsOf reading (received none) s h = h

  pub complete-IsOf :
      (c : Completion) (s : Batch)
      → IsOf config proxy commands s
      → IsOf config proxy commands (complete s c).0
  unfolding complete
  complete-IsOf c s h = complete_at-IsOf s.operation c s h
