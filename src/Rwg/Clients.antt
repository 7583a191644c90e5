-- ===== src/Rwg/Clients.antt =====
-- np_single_proc.cpp: the table of clients, a std::map from ids, which is walked in the order of the
-- ids. The list holds the clients in that order.
pub mod Table
use network_programming.Base.{
  ℕ, zero, suc, ◌+◌, Bool, true, false, not, ◌&&◌, List, [], ◌∷◌, ◌++◌, Option, none, some, Text,
  codes, ltb, ◌==◌, if◌then◌else◌,
}
use network_programming.ShellCore.State.{ShellState}

abbrev pub max_users : ℕ
max_users = 30

abbrev pub default_name : Text
default_name = codes "(no name)"

pub record Client : Type 0 where
  pub online : Bool
  pub id : ℕ
  pub fd : ℕ
  pub name : Text
  pub ip : Text
  pub port : ℕ
  pub input_buffer : Text
  pub shell : ShellState

-- clients.find(id)
unfoldable pub find : List Client → ℕ → Option Client
find [] id = none
find (c ∷ cs) id = let later = find cs id in if c.id == id then some c else later

abbrev pub if_online : Option Client → Option Client
if_online none = none
if_online (some c) = if c.online then some c else none

unfoldable pub find_client_by_id : List Client → ℕ → Option Client
find_client_by_id clients id = if_online (find clients id)

abbrev pub is_none : {A : Type 0} → Option A → Bool
is_none none = true
is_none (some a) = false

-- The loop of `smallestUnusedId` from `id` on, with `n` ids left.
unfoldable pub first_unused : List Client → ℕ → ℕ → Option ℕ
first_unused clients id zero = none
first_unused clients id (suc n) =
    let later = first_unused clients (id + 1) n in
    if is_none (find_client_by_id clients id) then some id else later

unfoldable pub smallest_unused_id : List Client → Option ℕ
unfolding first_unused
smallest_unused_id clients = first_unused clients 1 max_users

-- clients[client.id] = client
unfoldable pub put : Client → List Client → List Client
put client [] = client ∷ []
put client (c ∷ cs) =
    let later = put client cs in
    if ltb client.id c.id
    then client ∷ c ∷ cs
    else if client.id == c.id
    then client ∷ cs
    else c ∷ later

-- clients.erase(id)
unfoldable pub erase : ℕ → List Client → List Client
erase id [] = []
erase id (c ∷ cs) = let rest = erase id cs in if c.id == id then rest else c ∷ rest
