-- ===== src/Console/Cgi.antt =====
-- CgiHttpSession of cgi_server.cpp (project 3): the response of one browser connection, to which
-- several remote sessions add while earlier parts are still being written.
pub mod Order
use network_programming.Base.{
  ℕ, ◌-◌, Bool, true, false, List, [], ◌∷◌, ◌++◌, Text, codes, text_eq, ltb, ◌==◌, length,
  if◌then◌else◌, is_empty,
}
use network_programming.Console.Http.{HttpRequest}
use network_programming.Console.Pages.{render_console_page}
use network_programming.Console.Panel.{render_panel_page}
use network_programming.Console.Query.{RemoteSessionConfig, parse_remote_sessions}

pub record Connection : Type 0 where
  pub pending : List Text
  pub active_remotes : ℕ
  pub closing : Bool

pub data Action : Type 0 where
  -- async_write of a text
  write : Text → Action
  -- The socket is shut down and closed.
  close : Action

abbrev pub Step : Type 0
Step = Connection × List Action

unfoldable pub new_connection : Connection
new_connection = record { pending = []; active_remotes = 0; closing = false }

write_front : Connection → List Text → List Action
write_front c [] = if c.closing then close ∷ [] else []
write_front c (front ∷ rest) = write front ∷ []

unfoldable pub do_write : Connection → Step
unfolding write_front
do_write c = (c, write_front c c.pending)

unfoldable pub enqueue : Connection → Text → Step
unfolding do_write
enqueue c output =
    let queued = record c { pending = c.pending ++ output ∷ [] } in
    if is_empty c.pending then do_write queued else (queued, [])

unfoldable pub close_when_drained : Connection → Step
unfolding do_write
close_when_drained c =
    let closing = record c { closing = true } in
    if is_empty c.pending then do_write closing else (closing, [])

-- `active_remotes_` is unsigned, and is lowered only above 0.
unfoldable pub remote_done : Connection → Step
unfolding close_when_drained
remote_done c =
    let left =
      (if ltb 0 c.active_remotes then record c { active_remotes = c.active_remotes - 1 } else c) in
    if left.active_remotes == 0 then close_when_drained left else (left, [])

pop_front : List Text → List Text
pop_front [] = []
pop_front (front ∷ rest) = rest

-- The completion of async_write; `false` is an error.
unfoldable pub written : Connection → Bool → Step
unfolding do_write pop_front
written c true = do_write (record c { pending = pop_front c.pending })
written c false = (c, close ∷ [])

-- `start_remote_sessions` up to the loop that starts them.
unfoldable pub expect_remotes : Connection → ℕ → Step
unfolding close_when_drained
expect_remotes c count =
    let waiting = record c { active_remotes = count } in
    if count == 0 then close_when_drained waiting else (waiting, [])

abbrev pub then_do : Step → (Connection → Step) → Step
then_do (c, actions) f = let (c', more) = f c in (c', actions ++ more)

abbrev pub ok_html : Text
ok_html = codes "HTTP/1.1 200 OK\r\nContent-type: text/html\r\n\r\n"

-- The sessions that `start_remote_sessions` starts come second.
unfoldable pub dispatch : Connection → HttpRequest → Step × List RemoteSessionConfig
unfolding enqueue close_when_drained expect_remotes
dispatch c request =
    if text_eq request.path (codes "/panel.cgi")
    then (then_do (enqueue c (ok_html ++ render_panel_page)) close_when_drained, [])
    else if text_eq request.path (codes "/console.cgi")
    then (let sessions = parse_remote_sessions request.query in
        (
          then_do (enqueue c (ok_html ++ render_console_page sessions))
              (λ d. expect_remotes d (length sessions)),
          sessions,
        ))
    else (
      then_do
          (enqueue c
            (codes "HTTP/1.1 404 Not Found\r\nContent-type: text/plain\r\n\r\nNot Found\n"))
          close_when_drained,
      [],
    )
