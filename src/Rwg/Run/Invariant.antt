-- ===== src/Rwg/Run/Invariant.antt =====
-- The invariant over any run of the server.
use network_programming.Base.{
  ℕ, Bool, List, [], ◌∷◌, Option, none, some, Text, ◌≡◌, arith, refl, ◌>>=◌, subst,
}
use network_programming.Rwg.Builtins.{handle_rwg_builtin}
use network_programming.Rwg.Builtins.Invariant.{found-IsUser, Keeps, handle_rwg_builtin-Keeps}
use network_programming.Rwg.Clients.{Client, find_client_by_id}
use network_programming.Rwg.Pipes.{Descriptors, UserPipeRequest}
use network_programming.Rwg.Pipes.Invariant.{resolve_user_pipes-IsServer}
use network_programming.Rwg.Run.{
  Call, arrives, leaves, types, pipes, server_of, type_line, pipe_line, call, run,
}
use network_programming.Rwg.Server.{Server, empty_server}
use network_programming.Rwg.Server.Invariant.{
  IsServer, accept_client-IsServer, cleanup_client-IsServer,
}

-- What a step leaves, unless it ended in an exception.
abbrev pub Leaves : Option Server → Type 0
Leaves none = Unit
Leaves (some s) = IsServer s

Keeps-Leaves : (o : Option (Server × Bool)) → Keeps o → Leaves (server_of o)
Keeps-Leaves none k = tt
Keeps-Leaves (some (s, _)) k = k

type_line-Leaves :
    (id : ℕ) (found : Option Client) (line : Text) (s : Server)
    → find_client_by_id s.clients id ≡ found
    → IsServer s
    → Leaves (type_line found line s)
type_line-Leaves id none line s e w = w
type_line-Leaves id (some client) line s e w =
    Keeps-Leaves (handle_rwg_builtin client line s)
      (handle_rwg_builtin-Keeps client line s (found-IsUser s.clients id client w.is_table e).1 w)

pipe_line-IsServer :
    (id : ℕ) (found : Option Client) (d : Descriptors) (request : UserPipeRequest) (line : Text)
    (s : Server)
    → find_client_by_id s.clients id ≡ found
    → IsServer s
    → IsServer (pipe_line found d request line s)
pipe_line-IsServer id none d request line s e w = w
pipe_line-IsServer id (some client) d request line s e w =
    let (same, user) = found-IsUser s.clients id client w.is_table e in
    resolve_user_pipes-IsServer d client line request s (ground (arith, e, same)) w

call-Leaves : (c : Call) (s : Server) → IsServer s → Leaves (call c s)
unfolding call
call-Leaves (arrives peer) s w = accept_client-IsServer peer s w
call-Leaves (leaves id announce) s w = cleanup_client-IsServer id announce s w
call-Leaves (types id line) s w = type_line-Leaves id (find_client_by_id s.clients id) line s refl w
call-Leaves (pipes id d request line) s w =
    pipe_line-IsServer id (find_client_by_id s.clients id) d request line s refl w

then-Leaves :
    (o : Option Server) (next : Server → Option Server)
    → Leaves o
    → ((t : Server) → IsServer t → Leaves (next t))
    → Leaves (o >>= next)
then-Leaves none next l k = tt
then-Leaves (some t) next l k = k t l

run-Leaves : (cs : List Call) (s : Server) → IsServer s → Leaves (run cs s)
unfolding run
run-Leaves [] s w = w
run-Leaves (c ∷ cs) s w =
    then-Leaves (call c s) (λ t. run cs t) (call-Leaves c s w) (λ t v. run-Leaves cs t v)

-- From the empty server, whatever calls follow one another, the clients of the table have rising ids
-- from 1 to 30 and are all online, and both ends of every pipe between users are in the table, as
-- long as no call ends in an exception.
pub run-IsServer : (cs : List Call) (s : Server) → run cs empty_server ≡ some s → IsServer s
run-IsServer cs s e =
    subst (λ o. Leaves o) e
      (run-Leaves cs empty_server (record { is_table = refl; ends_online = refl }))
