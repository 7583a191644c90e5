-- ===== src/Rwg/Builtins.antt =====
-- np_single_proc.cpp: `handleRwgBuiltin`, the commands who, name, tell and yell.
pub mod Invariant
pub mod Laws
use network_programming.Base.{
  ℕ, zero, suc, ◌+◌, Bool, true, false, not, ◌&&◌, List, [], ◌∷◌, ◌++◌, Option, none, some, Text,
  codes, text_eq, ◌==◌, ltb, length, to_string, stoi, ℤ, pos, negsuc, words, is_empty,
  if◌then◌else◌, ◌>>=◌,
}
use network_programming.Rwg.Clients.{Client, find_client_by_id, put, max_users}
use network_programming.ShellCore.Os.{PipeFd}
use network_programming.ShellCore.State.{ShellState, pipe_at, without}
use network_programming.Rwg.Server.{
  Server, Event, add_events, close_pipe, send_to, broadcast, endpoint,
}

abbrev incoming : Option PipeFd → List Event
incoming none = []
incoming (some p) = close_pipe p

-- discardIncomingPipe(client.shell, client.shell.executedSegments + 1);
-- ++client.shell.executedSegments;
unfoldable pub skip_segment : Client → Server → Server
skip_segment client s =
    let shell = client.shell in
    let target = shell.executed_segments + 1 in
    let skipped : ShellState = record shell {
      numbered_pipes = without target shell.numbered_pipes;
      executed_segments = target;
    } in
    let closing = add_events (incoming (pipe_at target shell.numbered_pipes)) s in
    record closing { clients = put (record client { shell = skipped }) closing.clients }

abbrev tab : Text
tab = codes "\t"

abbrev row_start : Client → Text
row_start target =
    to_string target.id
    ++ (tab ++ (to_string target.fd ++ (tab ++ (target.name ++ (tab ++ endpoint target)))))

abbrev pub who_row : Client → Client → Text
who_row client target =
    row_start target ++ (if target.id == client.id then codes "\t<-me\n" else codes "\n")

abbrev show_row : Client → Option Client → Server → Server
show_row client none s = s
show_row client (some target) s = send_to client (who_row client target) s

-- The rows from `id` on, with `n` ids left.
rows_from : Client → ℕ → ℕ → Server → Server
rows_from client id zero s = s
rows_from client id (suc n) s =
    rows_from client (id + 1) n (show_row client (find_client_by_id s.clients id) s)

unfoldable pub who : Client → Server → Server
unfolding rows_from skip_segment
who client s = skip_segment client (
    rows_from client 1 max_users
      (send_to client (codes "<ID>\t<fd>\t<nickname>\t<IP:port>\t<indicate me>\n") s))

unfoldable pub name_taken : List Client → Text → Bool
name_taken [] name = false
name_taken (c ∷ cs) name =
    let later = name_taken cs name in if c.online && text_eq c.name name then true else later

unfoldable pub rename : Client → Text → Server → Server
unfolding skip_segment
rename client new_name s =
    if name_taken s.clients new_name
    then skip_segment client
        (send_to client (codes "*** User '" ++ (new_name ++ codes "' already exists. ***\n")) s)
    else (let named = record client { name = new_name } in
        skip_segment named (
          broadcast
            (codes "*** User from "
              ++ (endpoint named ++ (codes " is named '" ++ (new_name ++ codes "'. ***\n"))))
            (record s { clients = put named s.clients })))

abbrev pub signed : ℤ → Text
signed (pos n) = to_string n
signed (negsuc n) = b'-' ∷ to_string (n + 1)

abbrev find_signed : List Client → ℤ → Option Client
find_signed clients (pos n) = find_client_by_id clients n
find_signed clients (negsuc n) = none

abbrev join_words : List Text → Text
join_words [] = []
join_words (token ∷ tokens) = codes " " ++ (token ++ join_words tokens)

abbrev pub join_message : List Text → Text
join_message [] = []
join_message (token ∷ tokens) = token ++ join_words tokens

abbrev tell_to : Client → ℤ → List Text → Option Client → Server → Server
tell_to client id message none s =
    send_to client (codes "*** Error: user #" ++ (signed id ++ codes " does not exist yet. ***\n"))
      s
tell_to client id message (some target) s =
    send_to target
      (codes "*** "
        ++ (client.name ++ (codes " told you ***: " ++ (join_message message ++ codes "\n"))))
      s

-- `none` is the exception of std::stoi.
unfoldable pub tell : Client → Text → List Text → Server → Option Server
unfolding skip_segment
tell client id_text message s = do
  id ← stoi id_text
  some (skip_segment client (tell_to client id message (find_signed s.clients id) s))

unfoldable pub yell : Client → List Text → Server → Server
unfolding skip_segment
yell client message s = skip_segment client (
    broadcast
      (codes "*** "
        ++ (client.name ++ (codes " yelled ***: " ++ (join_message message ++ codes "\n"))))
      s)

abbrev handled : Option Server → Option (Server × Bool)
handled none = none
handled (some s) = some (s, true)

name_words : Client → List Text → Server → Server
name_words client [] s = skip_segment client s
name_words client (new_name ∷ rest) s = rename client new_name s

tell_words : Client → List Text → Server → Option Server
tell_words client (id_text ∷ word ∷ rest) s = tell client id_text (word ∷ rest) s
tell_words client _ s = some (skip_segment client s)

-- The words of the line; the Boolean says whether it was a command of the server.
builtin : Client → List Text → Server → Option (Server × Bool)
unfolding name_words tell_words
builtin client [] s = some (s, true)
builtin client (name ∷ arguments) s =
    if text_eq name (codes "who")
    then handled (some (who client s))
    else if text_eq name (codes "name")
    then handled (some (name_words client arguments s))
    else if text_eq name (codes "tell")
    then handled (tell_words client arguments s)
    else if text_eq name (codes "yell")
    then handled (some (yell client arguments s))
    else some (s, false)

unfoldable pub handle_rwg_builtin : Client → Text → Server → Option (Server × Bool)
unfolding builtin
handle_rwg_builtin client line s = builtin client (words line) s
