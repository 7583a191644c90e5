-- ===== src/Rwg/Server.antt =====
-- np_single_proc.cpp: the server's state, the arrival and departure of clients, and the pipes
-- between users. What the outside sees, the writes and the descriptors closed, is recorded in order;
-- `writeAll` ignores a failure, and so do the operations.
pub mod Invariant
use network_programming.Base.{
  ℕ, Bool, true, false, not, ◌||◌, ◌&&◌, List, [], ◌∷◌, ◌++◌, Option, none, some, Text, codes, ◌==◌,
  to_string, if◌then◌else◌,
}
use network_programming.Rwg.Clients.{
  Client, default_name, find_client_by_id, smallest_unused_id, put, erase,
}
use network_programming.ShellCore.Os.{PipeFd}
use network_programming.ShellCore.State.{ShellState, new_shell}

-- userPipes: a pipe from one user to another.
pub record UserPipe : Type 0 where
  pub sender : ℕ
  pub receiver : ℕ
  pub fds : PipeFd

pub data Event : Type 0 where
  wrote : (fd : ℕ) (message : Text) → Event
  closed : (fd : ℕ) → Event

pub record Server : Type 0 where
  pub clients : List Client
  pub user_pipes : List UserPipe
  pub trace : List Event

abbrev pub empty_server : Server
empty_server = record { clients = []; user_pipes = []; trace = [] }

abbrev pub add_events : List Event → Server → Server
add_events events s = record s { trace = s.trace ++ events }

abbrev pub close_fd : Option ℕ → List Event
close_fd none = []
close_fd (some fd) = closed fd ∷ []

abbrev pub close_pipe : PipeFd → List Event
close_pipe p = close_fd p.read_fd ++ close_fd p.write_fd

unfoldable pub send_to : Client → Text → Server → Server
send_to client message s = if client.online then add_events (wrote client.fd message ∷ []) s else s

unfoldable pub broadcast_to : List Client → Text → Server → Server
broadcast_to [] message s = s
broadcast_to (c ∷ cs) message s = broadcast_to cs message (send_to c message s)

unfoldable pub broadcast : Text → Server → Server
unfolding broadcast_to
broadcast message s = broadcast_to s.clients message s

abbrev pub endpoint : Client → Text
endpoint c = c.ip ++ (b':' ∷ to_string c.port)

abbrev pub welcome : Text
welcome =
    codes "****************************************\n"
    ++ (codes "** Welcome to the information server. **\n"
        ++ codes "****************************************\n")

-- The connection that `accept` gives.
pub record Peer : Type 0 where
  pub fd : ℕ
  pub ip : Text
  pub port : ℕ

abbrev pub new_client : ℕ → Peer → Client
new_client id peer = record {
  online = true;
  id = id;
  fd = peer.fd;
  name = default_name;
  ip = peer.ip;
  port = peer.port;
  input_buffer = [];
  shell = new_shell;
}

unfoldable pub enter : Client → Server → Server
unfolding send_to broadcast
enter client s =
    let joined = record s { clients = put client s.clients } in
    let welcomed = send_to client welcome joined in
    let announced =
      broadcast
        (codes "*** User '"
          ++ (client.name ++ (codes "' entered from " ++ (endpoint client ++ codes ". ***\n"))))
        welcomed in
    send_to client (codes "% ") announced

abbrev pub enter_at : Option ℕ → Peer → Server → Server
enter_at none peer s = add_events (closed peer.fd ∷ []) s
enter_at (some id) peer s = enter (new_client id peer) s

-- `none` is a failed `accept`.
unfoldable pub accept_client : Option Peer → Server → Server
accept_client none s = s
accept_client (some peer) s = enter_at (smallest_unused_id s.clients) peer s

abbrev pub touches : ℕ → UserPipe → Bool
touches id p = p.sender == id || p.receiver == id

unfoldable pub pipes_without : ℕ → List UserPipe → List UserPipe
pipes_without id [] = []
pipes_without id (p ∷ ps) =
    let rest = pipes_without id ps in if touches id p then rest else p ∷ rest

unfoldable pub pipe_closes : ℕ → List UserPipe → List Event
pipe_closes id [] = []
pipe_closes id (p ∷ ps) =
    let rest = pipe_closes id ps in if touches id p then close_pipe p.fds ++ rest else rest

unfoldable pub cleanup_client_user_pipes : ℕ → Server → Server
unfolding pipes_without pipe_closes
cleanup_client_user_pipes id s = record s {
  user_pipes = pipes_without id s.user_pipes;
  trace = s.trace ++ pipe_closes id s.user_pipes;
}

-- closeShellState
abbrev pub close_shell_state : List (ℕ × PipeFd) → List Event
close_shell_state [] = []
close_shell_state ((_, p) ∷ ps) = close_pipe p ++ close_shell_state ps

abbrev pub announce_left : Bool → Text → Server → Server
announce_left announce name s =
    if announce then broadcast (codes "*** User '" ++ (name ++ codes "' left. ***\n")) s else s

-- A closed descriptor is not used again: the client is offline before the next message.
unfoldable pub leave : Client → Bool → Server → Server
unfolding cleanup_client_user_pipes broadcast
leave client announce s =
    let closing = add_events (closed client.fd ∷ close_shell_state client.shell.numbered_pipes) s in
    let unpiped = cleanup_client_user_pipes client.id closing in
    let offline = record unpiped {
      clients = put (record client { online = false }) unpiped.clients;
    } in
    let announced = announce_left announce client.name offline in
    record announced { clients = erase client.id announced.clients }

abbrev pub leave_if : Option Client → Bool → Server → Server
leave_if none announce s = s
leave_if (some client) announce s = leave client announce s

unfoldable pub cleanup_client : ℕ → Bool → Server → Server
unfolding leave
cleanup_client id announce s = leave_if (find_client_by_id s.clients id) announce s
