-- ===== src/Rwg/Builtins/Invariant.antt =====
-- The commands of a user keep the server's invariant.
use network_programming.Base.{
  ℕ, zero, suc, ◌+◌, ◌≤◌, ◌<◌, Bool, true, false, List, [], ◌∷◌, Option, none, some, Text,
  if◌then◌else◌, ◌≡◌, arith, refl, subst, words, stoi, ℤ, text_eq, codes, ◌>>=◌,
}
use network_programming.Rwg.Clients.{Client, find_client_by_id, put, if_online, find}
use network_programming.Rwg.Clients.Table.{find-above, above}
use network_programming.Rwg.Server.{Server, add_events}
use network_programming.Rwg.Server.Invariant.{
  IsServer, SameUsers, SameUsers-IsServer, send_to-SameUsers, broadcast-SameUsers, put-IsServer,
  SameUsers-trans, add_events-SameUsers,
}
use network_programming.Rwg.Builtins.{
  skip_segment, rows_from, show_row, who, rename, name_taken, tell_to, tell, yell, name_words,
  tell_words, builtin, handle_rwg_builtin, find_signed, handled,
}

-- A client as it stands in the table.
pub record IsUser (client : Client) : Type 0 where
  pub positive : 0 < client.id
  pub bounded : client.id ≤ 30
  pub is_online : client.online ≡ true

pub found-IsUser :
    (clients : List Client) (id : ℕ) (client : Client)
    → above 0 clients ≡ true
    → find_client_by_id clients id ≡ some client
    → (client.id ≡ id) × IsUser client
unfolding find_client_by_id
found-IsUser clients id client a e = go (find clients id) refl e
  where
    go :
        (found : Option Client)
        → find clients id ≡ found
        → if_online found ≡ some client
        → (client.id ≡ id) × IsUser client
    go none f h = cc
    go (some c) f h =
        let facts = find-above 0 id clients c a f in
        subst (λ (d : Client). (d.id ≡ id) × IsUser d) {x = c} {y = client}
          (ground (arith, facts.3))
          (
            facts.0,
            record {
              positive = ground (arith, facts.0, facts.1);
              bounded = ground (arith, facts.0, facts.2);
              is_online = facts.3;
            },
          )

skip_segment-IsServer :
    (client : Client) (s : Server) → IsUser client → IsServer s → IsServer (skip_segment client s)
unfolding skip_segment
skip_segment-IsServer client s u w =
    put-IsServer _ (add_events _ s) u.positive u.bounded u.is_online
      (SameUsers-IsServer s _ (add_events-SameUsers _ s) w)

show_row-SameUsers :
    (client : Client) (target : Option Client) (s : Server) → SameUsers s (show_row client target s)
show_row-SameUsers client none s = record { clients = refl; user_pipes = refl }
show_row-SameUsers client (some target) s = send_to-SameUsers client _ s

rows_from-SameUsers :
    (client : Client) (id n : ℕ) (s : Server) → SameUsers s (rows_from client id n s)
unfolding rows_from
rows_from-SameUsers client id zero s = record { clients = refl; user_pipes = refl }
rows_from-SameUsers client id (suc n) s =
    SameUsers-trans (show_row-SameUsers client (find_client_by_id s.clients id) s)
      (rows_from-SameUsers client (id + 1) n _)

who-IsServer : (client : Client) (s : Server) → IsUser client → IsServer s → IsServer (who client s)
unfolding who
who-IsServer client s u w = skip_segment-IsServer client _ u (
    SameUsers-IsServer s _
      (SameUsers-trans (send_to-SameUsers client _ s) (rows_from-SameUsers client 1 30 _)) w)

if-IsServer : (b : Bool) (s t : Server) → IsServer s → IsServer t → IsServer (if b then s else t)
if-IsServer true s t v w = v
if-IsServer false s t v w = w

rename-IsServer :
    (client : Client) (name : Text) (s : Server)
    → IsUser client
    → IsServer s
    → IsServer (rename client name s)
unfolding rename
rename-IsServer client name s u w =
    if-IsServer (name_taken s.clients name) _ _
      (skip_segment-IsServer client _ u (SameUsers-IsServer s _ (send_to-SameUsers client _ s) w))
      (let named : Client = record client { name = name } in
        let users : Server = record s { clients = put named s.clients } in
        let is_named : IsUser named = record {
          positive = u.positive;
          bounded = u.bounded;
          is_online = u.is_online;
        } in
        skip_segment-IsServer named _ is_named (
          SameUsers-IsServer users _ (broadcast-SameUsers _ users)
            (put-IsServer named s u.positive u.bounded u.is_online w)))

tell_to-SameUsers :
    (client : Client) (id : ℤ) (message : List Text) (target : Option Client) (s : Server)
    → SameUsers s (tell_to client id message target s)
tell_to-SameUsers client id message none s = send_to-SameUsers client _ s
tell_to-SameUsers client id message (some target) s = send_to-SameUsers target _ s

yell-IsServer :
    (client : Client) (message : List Text) (s : Server)
    → IsUser client
    → IsServer s
    → IsServer (yell client message s)
unfolding yell
yell-IsServer client message s u w =
    skip_segment-IsServer client _ u (SameUsers-IsServer s _ (broadcast-SameUsers _ s) w)

-- The server that a command leaves, where it does not end in an exception.
abbrev pub Keeps : Option (Server × Bool) → Type 0
Keeps none = Unit
Keeps (some (s, _)) = IsServer s

handled-Keeps : (s : Server) → IsServer s → Keeps (handled (some s))
handled-Keeps s w = w

tell-Keeps :
    (client : Client) (id_text : Text) (message : List Text) (s : Server)
    → IsUser client
    → IsServer s
    → Keeps (handled (tell client id_text message s))
unfolding tell
tell-Keeps client id_text message s u w = go (stoi id_text)
  where
    go :
        (id : Option ℤ)
        → Keeps (
            handled (
              id >>= λ n.
              some (skip_segment client (tell_to client n message (find_signed s.clients n) s))))
    go none = tt
    go (some n) =
        skip_segment-IsServer client _ u (
          SameUsers-IsServer s _ (tell_to-SameUsers client n message (find_signed s.clients n) s) w)

name_words-IsServer :
    (client : Client) (arguments : List Text) (s : Server)
    → IsUser client
    → IsServer s
    → IsServer (name_words client arguments s)
unfolding name_words
name_words-IsServer client [] s u w = skip_segment-IsServer client s u w
name_words-IsServer client (name ∷ rest) s u w = rename-IsServer client name s u w

tell_words-Keeps :
    (client : Client) (arguments : List Text) (s : Server)
    → IsUser client
    → IsServer s
    → Keeps (handled (tell_words client arguments s))
unfolding tell_words
tell_words-Keeps client [] s u w = skip_segment-IsServer client s u w
tell_words-Keeps client (a ∷ []) s u w = skip_segment-IsServer client s u w
tell_words-Keeps client (a ∷ b ∷ rest) s u w = tell-Keeps client a (b ∷ rest) s u w

if-Keeps :
    (b : Bool) (x y : Option (Server × Bool)) → Keeps x → Keeps y → Keeps (if b then x else y)
if-Keeps true x y v w = v
if-Keeps false x y v w = w

builtin-Keeps :
    (client : Client) (tokens : List Text) (s : Server)
    → IsUser client
    → IsServer s
    → Keeps (builtin client tokens s)
unfolding builtin
builtin-Keeps client [] s u w = w
builtin-Keeps client (name ∷ arguments) s u w =
    if-Keeps (text_eq name (codes "who")) _ _ (who-IsServer client s u w) (
      if-Keeps (text_eq name (codes "name")) _ _ (name_words-IsServer client arguments s u w) (
        if-Keeps (text_eq name (codes "tell")) _ _ (tell_words-Keeps client arguments s u w)
          (if-Keeps (text_eq name (codes "yell")) _ _ (yell-IsServer client arguments s u w) w)))

pub handle_rwg_builtin-Keeps :
    (client : Client) (line : Text) (s : Server)
    → IsUser client
    → IsServer s
    → Keeps (handle_rwg_builtin client line s)
unfolding handle_rwg_builtin
handle_rwg_builtin-Keeps client line s u w = builtin-Keeps client (words line) s u w
