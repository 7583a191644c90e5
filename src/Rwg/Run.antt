-- ===== src/Rwg/Run.antt =====
-- np_single_proc.cpp: what the loop of `runServer` does, call by call. Lines of ordinary commands
-- change the table and the pipes of users only through `resolveUserPipes`; the processes that they
-- start are not modelled.
pub mod Invariant
use network_programming.Base.{ℕ, Bool, List, [], ◌∷◌, Option, none, some, Text, ◌>>=◌}
use network_programming.Rwg.Builtins.{handle_rwg_builtin}
use network_programming.Rwg.Clients.{Client, find_client_by_id}
use network_programming.Rwg.Pipes.{Descriptors, UserPipeRequest, resolve_user_pipes}
use network_programming.Rwg.Server.{Server, Peer, accept_client, cleanup_client}

pub data Call : Type 0 where
  arrives : Option Peer → Call
  leaves : (id : ℕ) (announce : Bool) → Call
  types : (id : ℕ) (line : Text) → Call
  pipes : (id : ℕ) → Descriptors → UserPipeRequest → (line : Text) → Call

abbrev pub server_of : Option (Server × Bool) → Option Server
server_of none = none
server_of (some (s, _)) = some s

abbrev pub type_line : Option Client → Text → Server → Option Server
type_line none line s = some s
type_line (some client) line s = server_of (handle_rwg_builtin client line s)

abbrev pub pipe_line : Option Client → Descriptors → UserPipeRequest → Text → Server → Server
pipe_line none d request line s = s
pipe_line (some client) d request line s = (resolve_user_pipes d client line request s).0

-- A call for an id with no client does not occur: the state stays. `none` is an exception.
unfoldable pub call : Call → Server → Option Server
call (arrives peer) s = some (accept_client peer s)
call (leaves id announce) s = some (cleanup_client id announce s)
call (types id line) s = type_line (find_client_by_id s.clients id) line s
call (pipes id d request line) s =
    some (pipe_line (find_client_by_id s.clients id) d request line s)

unfoldable pub run : List Call → Server → Option Server
unfolding call
run [] s = some s
run (c ∷ cs) s = do s' ← call c s; run cs s'
