-- ===== src/Rwg/Server/Invariant.antt =====
-- What every arrival and departure keep: ids in order and in range, everyone in the table online,
-- and no pipe from or to a user who is not there.
use network_programming.Base.{
  ℕ, ◌≤◌, ◌<◌, Bool, true, false, not, ◌&&◌, List, [], ◌∷◌, Option, none, some, Text, ◌≡◌, arith,
  refl, all, ap, ◌∙◌,
}
use network_programming.Rwg.Clients.{Client, find_client_by_id, smallest_unused_id, put, erase}
use network_programming.Rwg.Clients.Table.{
  IsTable, above-put, above-erase, erase-put, find-put, find-erase, is_free,
  smallest_unused_id-IsFirstFree, IsFirstFree,
}
use network_programming.Rwg.Server.{
  UserPipe, Server, Event, closed, Peer, send_to, broadcast_to, broadcast, add_events, new_client,
  enter, enter_at, accept_client, pipes_without, cleanup_client_user_pipes, announce_left, leave,
  leave_if, cleanup_client,
}

abbrev pub present : List Client → ℕ → Bool
present clients id = not (is_free clients id)

abbrev pub ends_present : List Client → UserPipe → Bool
ends_present clients p = present clients p.sender && present clients p.receiver

pub record IsServer (s : Server) : Type 0 where
  pub is_table : IsTable s.clients
  pub ends_online : all (ends_present s.clients) s.user_pipes ≡ true

-- Messages change neither the table nor the pipes.
pub record SameUsers (s t : Server) : Type 0 where
  pub clients : t.clients ≡ s.clients
  pub user_pipes : t.user_pipes ≡ s.user_pipes

pub send_to-SameUsers :
    (c : Client) (message : Text) (s : Server) → SameUsers s (send_to c message s)
unfolding send_to
send_to-SameUsers c message s = record { clients = ground arith; user_pipes = ground arith }

broadcast_to-SameUsers :
    (cs : List Client) (message : Text) (s : Server) → SameUsers s (broadcast_to cs message s)
unfolding broadcast_to
broadcast_to-SameUsers [] message s = record { clients = refl; user_pipes = refl }
broadcast_to-SameUsers (c ∷ cs) message s =
    let later = broadcast_to-SameUsers cs message (send_to c message s) in
    let first = send_to-SameUsers c message s in
    record {
      clients = later.clients ∙ first.clients;
      user_pipes = later.user_pipes ∙ first.user_pipes;
    }

pub broadcast-SameUsers : (message : Text) (s : Server) → SameUsers s (broadcast message s)
unfolding broadcast
broadcast-SameUsers message s = broadcast_to-SameUsers s.clients message s

pub SameUsers-IsServer : (s t : Server) → SameUsers s t → IsServer s → IsServer t
SameUsers-IsServer s t same w = record {
  is_table = rw (same.clients) w.is_table;
  ends_online = rw (same.clients, same.user_pipes) w.ends_online;
}

-- A table in which nobody is missing who was there keeps the pipes.
pub ends_present-keep :
    (before after : List Client) (ps : List UserPipe)
    → ((id : ℕ) → present before id ≡ true → present after id ≡ true)
    → all (ends_present before) ps ≡ true
    → all (ends_present after) ps ≡ true
ends_present-keep before after [] stay h = refl
ends_present-keep before after (p ∷ ps) stay h =
    ground (arith, stay p.sender, stay p.receiver, ends_present-keep before after ps stay)

pub present-put :
    (client : Client) (cs : List Client) (id : ℕ)
    → client.online ≡ true
    → present cs id ≡ true
    → present (put client cs) id ≡ true
unfolding find_client_by_id
present-put client cs id o h = ground (arith, find-put client id cs)

present-put_self :
    (client : Client) (cs : List Client)
    → client.online ≡ true
    → present (put client cs) client.id ≡ true
unfolding find_client_by_id
present-put_self client cs o = ground (arith, find-put client client.id cs)

pub put-IsServer :
    (client : Client) (s : Server)
    → 0 < client.id
    → client.id ≤ 30
    → client.online ≡ true
    → IsServer s
    → IsServer (record s { clients = put client s.clients })
put-IsServer client s l h o w = record {
  is_table = above-put 0 client s.clients l h o w.is_table;
  ends_online =
      ends_present-keep s.clients (put client s.clients) s.user_pipes
        (λ id. present-put client s.clients id o) w.ends_online;
}

pub SameUsers-trans : {s t u : Server} → SameUsers s t → SameUsers t u → SameUsers s u
SameUsers-trans a b = record {
  clients = b.clients ∙ a.clients;
  user_pipes = b.user_pipes ∙ a.user_pipes;
}

pub add_events-SameUsers : (events : List Event) (s : Server) → SameUsers s (add_events events s)
add_events-SameUsers events s = record { clients = refl; user_pipes = refl }

enter-SameUsers :
    (client : Client) (s : Server)
    → SameUsers (record s { clients = put client s.clients }) (enter client s)
unfolding enter
enter-SameUsers client s =
    SameUsers-trans (SameUsers-trans (send_to-SameUsers client _ _) (broadcast-SameUsers _ _))
      (send_to-SameUsers client _ _)

pub enter-clients : (client : Client) (s : Server) → (enter client s).clients ≡ put client s.clients
enter-clients client s = (enter-SameUsers client s).clients

enter-IsServer :
    (client : Client) (s : Server)
    → 0 < client.id
    → client.id ≤ 30
    → client.online ≡ true
    → IsServer s
    → IsServer (enter client s)
enter-IsServer client s l h o w =
    SameUsers-IsServer (record s { clients = put client s.clients }) (enter client s)
      (enter-SameUsers client s) (put-IsServer client s l h o w)

enter_at-IsServer :
    (found : Option ℕ) (peer : Peer) (s : Server)
    → IsFirstFree s.clients 1 31 found
    → IsServer s
    → IsServer (enter_at found peer s)
enter_at-IsServer none peer s f w =
    SameUsers-IsServer s _ (add_events-SameUsers (closed peer.fd ∷ []) s) w
enter_at-IsServer (some id) peer s (l, h, _, _) w =
    enter-IsServer (new_client id peer) s (omega arith) (omega arith) refl w

pub accept_client-IsServer :
    (peer : Option Peer) (s : Server) → IsServer s → IsServer (accept_client peer s)
unfolding accept_client
accept_client-IsServer none s w = w
accept_client-IsServer (some peer) s w =
    enter_at-IsServer (smallest_unused_id s.clients) peer s
      (smallest_unused_id-IsFirstFree s.clients) w

-- The pipes that are left do not touch the user, so their ends are still there.
pipes_without-ends :
    (id : ℕ) (cs : List Client) (ps : List UserPipe)
    → all (ends_present cs) ps ≡ true
    → all (ends_present (erase id cs)) (pipes_without id ps) ≡ true
unfolding pipes_without find_client_by_id
pipes_without-ends id cs [] h = refl
pipes_without-ends id cs (p ∷ ps) h =
    ground
      (arith, find-erase id p.sender cs, find-erase id p.receiver cs, pipes_without-ends id cs ps)

announce_left-SameUsers :
    (announce : Bool) (name : Text) (s : Server) → SameUsers s (announce_left announce name s)
announce_left-SameUsers true name s = broadcast-SameUsers _ s
announce_left-SameUsers false name s = record { clients = refl; user_pipes = refl }

pub leave-users :
    (client : Client) (announce : Bool) (s : Server)
    → ((leave client announce s).clients ≡ erase client.id s.clients)
      × ((leave client announce s).user_pipes ≡ pipes_without client.id s.user_pipes)
unfolding leave cleanup_client_user_pipes
leave-users client announce s =
    let same = announce_left-SameUsers announce client.name _ in
    (
      ap (erase client.id) same.clients ∙ erase-put (record client { online = false }) s.clients,
      same.user_pipes,
    )

leave-IsServer :
    (client : Client) (announce : Bool) (s : Server)
    → IsServer s
    → IsServer (leave client announce s)
leave-IsServer client announce s w =
    let users = leave-users client announce s in
    record {
      is_table = rw (users.0) (above-erase 0 client.id s.clients w.is_table);
      ends_online =
          rw (users.0, users.1) (pipes_without-ends client.id s.clients s.user_pipes w.ends_online);
    }

pub cleanup_client-IsServer :
    (id : ℕ) (announce : Bool) (s : Server) → IsServer s → IsServer (cleanup_client id announce s)
unfolding cleanup_client
cleanup_client-IsServer id announce s w = go (find_client_by_id s.clients id)
  where
    go : (found : Option Client) → IsServer (leave_if found announce s)
    go none = w
    go (some client) = leave-IsServer client announce s w
