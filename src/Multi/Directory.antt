-- ===== src/Multi/Directory.antt =====
-- The two servers of project 2 side by side: np_single_proc.cpp and np_multi_proc.cpp as directories
-- of the users who are online.
use network_programming.Base.{
  ℕ, zero, suc, ◌+◌, ◌≤◌, Bool, true, false, not, List, [], ◌∷◌, Option, none, some, Text, ◌==◌,
  if◌then◌else◌, ◌≡◌, refl, arith, Bool-cases, inl, inr, ==_iff, ap, sym, subst, ◌∙◌,
}
use network_programming.Multi.Section.Invariant.Users.{left-users}
use network_programming.Multi.Shared.{
  Shared, SharedUser, set_user, copy_string, is_valid_id, ip_size,
}
use network_programming.Multi.Users.{first_offline, assign_at, assign_user, clear_user}
use network_programming.Rwg.Clients.Table.{find-put, find-erase}
use network_programming.Rwg.Clients.{
  Client, find, if_online, find_client_by_id, is_none, first_unused, smallest_unused_id, put, erase,
}
use network_programming.Rwg.Server.Invariant.{enter-clients, leave-users}
use network_programming.Rwg.Server.{
  Server, Peer, new_client, enter_at, accept_client, leave_if, cleanup_client,
}

-- The name and the address that others see of a user.
abbrev pub Entry : Type 0
Entry = Text × Text × ℕ

abbrev pub entry_of : Option Client → Option Entry
entry_of none = none
entry_of (some c) = some (c.name, c.ip, c.port)

abbrev pub entry_at : SharedUser → Option Entry
entry_at user = if user.online then some (user.name, user.ip, user.port) else none

-- Both have the same users at the ids from 1 to 30.
abbrev pub SameUsers : List Client → Shared → Type 0
SameUsers clients s =
    (id : ℕ)
    → is_valid_id id ≡ true
    → entry_of (find_client_by_id clients id) ≡ entry_at (s.users id)

entry-free :
    (found : Option Client) (user : SharedUser)
    → entry_of found ≡ entry_at user
    → is_none found ≡ not user.online
entry-free none user e = ground arith
entry-free (some c) user e = ground arith

first_unused-offline :
    (clients : List Client) (s : Shared)
    → SameUsers clients s
    → (id n : ℕ) → 1 ≤ id
    → id + n ≤ 31
    → first_unused clients id n ≡ first_offline id n s
unfolding first_unused first_offline
first_unused-offline clients s same id zero low high = refl
first_unused-offline clients s same id (suc n) low high = ground (
  arith,
  entry-free (find_client_by_id clients id) (s.users id) (same id (ground arith)),
  first_unused-offline clients s same (id + 1) n,
)

find_client-put :
    (client : Client) (id : ℕ) (clients : List Client)
    → client.online ≡ true
    → find_client_by_id (put client clients) id
      ≡ (if client.id == id then some client else find_client_by_id clients id)
unfolding find_client_by_id
find_client-put client id clients online = ground (arith, find-put client id clients)

find_client-erase :
    (gone id : ℕ) (clients : List Client)
    → find_client_by_id (erase gone clients) id
      ≡ (if gone == id then none else find_client_by_id clients id)
unfolding find_client_by_id
find_client-erase gone id clients = ground (arith, find-erase gone id clients)

arrival :
    (given : Option ℕ) (pid : ℕ) (peer : Peer) (server : Server) (s : Shared)
    → copy_string ip_size peer.ip ≡ peer.ip
    → SameUsers server.clients s
    → SameUsers (enter_at given peer server).clients (assign_at given pid peer s).1
unfolding set_user copy_string
arrival none pid peer server s fits same = same
arrival (some given) pid peer server s fits same = λ id valid.
    rw
      (
        enter-clients (new_client given peer) server,
        find_client-put (new_client given peer) id server.clients refl,
      )
      (elim (Bool-cases (given == id)) [
        | inl e ↦ let this : (id == given) ≡ true = ground arith in rw (e, this, fits) refl
        | inr e ↦ let other : (id == given) ≡ false = ground arith in rw (e, other) (same id valid)
      ])

find-own_id : (clients : List Client) (id : ℕ) (c : Client) → find clients id ≡ some c → c.id ≡ id
unfolding find
find-own_id [] id c e = cc
find-own_id (d ∷ ds) id c e = elim (Bool-cases (d.id == id)) [
  | inl this ↦
      let same : d ≡ c = ground arith in
      ap (λ (x : Client). x.id) (sym same) ∙ (==_iff d.id id).0 this
  | inr other ↦ find-own_id ds id c (ground arith)
]

if_online-some : (found : Option Client) (c : Client) → if_online found ≡ some c → found ≡ some c
if_online-some none c e = e
if_online-some (some d) c e = elim (Bool-cases d.online) [
  | inl on ↦ ground arith
  | inr off ↦ absurd (ground arith)
]

-- A user that the first server does not have is offline in the second, and one that it has is online.
online-found :
    (found : Option Client) (user : SharedUser)
    → entry_of found ≡ entry_at user
    → user.online ≡ not (is_none found)
online-found none user e = ground arith
online-found (some c) user e = ground arith

departure :
    (found : Option Client) (gone : ℕ) (announce : Bool) (server : Server) (s : Shared)
    → find_client_by_id server.clients gone ≡ found
    → is_valid_id gone ≡ true
    → SameUsers server.clients s
    → SameUsers (leave_if found announce server).clients (clear_user gone s).1
unfolding clear_user find_client_by_id
departure none gone announce server s e valid_gone same =
    let off : (s.users gone).online ≡ false =
      subst (λ f. (s.users gone).online ≡ not (is_none f)) e
        (online-found _ (s.users gone) (same gone valid_gone)) in
    rw (valid_gone, off) same
departure (some c) gone announce server s e valid_gone same = λ id valid.
    let on : (s.users gone).online ≡ true =
      subst (λ f. (s.users gone).online ≡ not (is_none f)) e
        (online-found _ (s.users gone) (same gone valid_gone)) in
    let own : c.id ≡ gone = find-own_id server.clients gone c (if_online-some _ c e) in
    rw
      (
        (leave-users c announce server).0,
        find_client-erase c.id id server.clients,
        own,
        valid_gone,
        on,
        left-users gone s id,
      )
      (elim (Bool-cases (gone == id)) [
        | inl h ↦ let this : (id == gone) ≡ true = ground arith in rw (h, this) refl
        | inr h ↦ let other : (id == gone) ≡ false = ground arith in rw (h, other) (same id valid)
      ])

-- Users come and go; a process number is given to those who come.
pub data Change : Type 0 where
  comes : ℕ → Peer → Change
  goes : ℕ → Change

-- An address fits its array, and it is a user's id that goes.
abbrev pub AllFit : List Change → Type 0
AllFit [] = Unit
AllFit (comes pid peer ∷ changes) = (copy_string ip_size peer.ip ≡ peer.ip) × AllFit changes
AllFit (goes id ∷ changes) = (is_valid_id id ≡ true) × AllFit changes

-- The ids that np_single_proc.cpp gives, and its state at the end.
unfoldable pub change_server : List Change → Server → List (Option ℕ) × Server
change_server [] server = ([], server)
change_server (comes pid peer ∷ changes) server =
    let (ids, end) = change_server changes (accept_client (some peer) server) in
    (smallest_unused_id server.clients ∷ ids, end)
change_server (goes id ∷ changes) server = change_server changes (cleanup_client id true server)

-- The ids that np_multi_proc.cpp gives, and its shared memory at the end.
unfoldable pub change_shared : List Change → Shared → List (Option ℕ) × Shared
change_shared [] s = ([], s)
change_shared (comes pid peer ∷ changes) s =
    let (ids, end) = change_shared changes (assign_user pid peer s).1 in
    ((assign_user pid peer s).0 ∷ ids, end)
change_shared (goes id ∷ changes) s = change_shared changes (clear_user id s).1

same_ids :
    (pid : ℕ) (peer : Peer) (clients : List Client) (s : Shared)
    → SameUsers clients s
    → smallest_unused_id clients ≡ (assign_user pid peer s).0
unfolding smallest_unused_id assign_user
same_ids pid peer clients s same =
    first_unused-offline clients s same 1 30 (omega arith) (omega arith)
    ∙ sym (assign_at-id (first_offline 1 30 s))
  where
    assign_at-id : (given : Option ℕ) → (assign_at given pid peer s).0 ≡ given
    assign_at-id none = refl
    assign_at-id (some id) = refl

same_arrival :
    (pid : ℕ) (peer : Peer) (server : Server) (s : Shared)
    → copy_string ip_size peer.ip ≡ peer.ip
    → SameUsers server.clients s
    → SameUsers (accept_client (some peer) server).clients (assign_user pid peer s).1
unfolding accept_client assign_user smallest_unused_id
same_arrival pid peer server s fits same =
    rw (first_unused-offline server.clients s same 1 30 (omega arith) (omega arith))
      (arrival (first_offline 1 30 s) pid peer server s fits same)

-- The two servers of project 2 keep the same directory: from states with the same users at the ids
-- from 1 to 30, whoever comes and goes, both give the same ids in the same order, and end with the
-- same users, each with the same name, address and port, if every address fits its array and only
-- ids from 1 to 30 go.
pub change_server-change_shared :
    (changes : List Change) (server : Server) (s : Shared)
    → AllFit changes
    → SameUsers server.clients s
    → ((change_server changes server).0 ≡ (change_shared changes s).0)
      × SameUsers (change_server changes server).1.clients (change_shared changes s).1
unfolding change_server change_shared cleanup_client
change_server-change_shared [] server s fit same = (refl, same)
change_server-change_shared (comes pid peer ∷ changes) server s (fits, fit) same =
    let (ids, end) =
      change_server-change_shared changes (accept_client (some peer) server)
        (assign_user pid peer s).1 fit (same_arrival pid peer server s fits same) in
    (rw (same_ids pid peer server.clients s same, ids) refl, end)
change_server-change_shared (goes id ∷ changes) server s (valid, fit) same =
    change_server-change_shared changes (cleanup_client id true server) (clear_user id s).1 fit
      (departure (find_client_by_id server.clients id) id true server s refl valid same)
