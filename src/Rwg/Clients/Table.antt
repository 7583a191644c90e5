-- ===== src/Rwg/Clients/Table.antt =====
-- The table of clients as a finite map.
use network_programming.Base.{
  ℕ, zero, suc, ◌+◌, ◌≤◌, ◌<◌, Bool, true, false, ◌&&◌, List, [], ◌∷◌, Option, none, some, ltb, leb,
  ◌==◌, if◌then◌else◌, ◌≡◌, arith, refl, Bool-cases, inl, inr, subst,
}
use network_programming.Rwg.Clients.{
  Client, find, find_client_by_id, is_none, first_unused, smallest_unused_id, put, erase, max_users,
}

-- What a table must be: the ids rise, lie between 1 and the number of users, and all are online.
abbrev pub above : ℕ → List Client → Bool
above low [] = true
above low (c ∷ cs) = ltb low c.id && leb c.id max_users && c.online && above c.id cs

abbrev pub IsTable : List Client → Type 0
IsTable clients = above 0 clients ≡ true

above-weaken :
    (low high : ℕ) (cs : List Client) → low ≤ high → above high cs ≡ true → above low cs ≡ true
above-weaken low high [] h a = refl
above-weaken low high (c ∷ cs) h a = ground arith

pub above-put :
    (low : ℕ) (client : Client) (cs : List Client)
    → low < client.id
    → client.id ≤ max_users
    → client.online ≡ true
    → above low cs ≡ true
    → above low (put client cs) ≡ true
unfolding put
above-put low client [] l h o a = ground arith
above-put low client (c ∷ cs) l h o a = ground (arith, above-put c.id client cs)

pub above-erase :
    (low id : ℕ) (cs : List Client) → above low cs ≡ true → above low (erase id cs) ≡ true
unfolding erase
above-erase low id [] a = refl
above-erase low id (c ∷ cs) a =
    ground (arith, above-erase c.id id cs, above-weaken low c.id (erase id cs))

pub find-put :
    (client : Client) (id : ℕ) (cs : List Client)
    → find (put client cs) id ≡ (if client.id == id then some client else find cs id)
unfolding find put
find-put client id [] = ground arith
find-put client id (c ∷ cs) = ground (arith, find-put client id cs)

pub find-erase :
    (gone id : ℕ) (cs : List Client)
    → find (erase gone cs) id ≡ (if gone == id then none else find cs id)
unfolding find erase
find-erase gone id [] = ground arith
find-erase gone id (c ∷ cs) = ground (arith, find-erase gone id cs)

pub erase-put :
    (client : Client) (cs : List Client) → erase client.id (put client cs) ≡ erase client.id cs
unfolding erase put
erase-put client [] = ground arith
erase-put client (c ∷ cs) = ground (arith, erase-put client cs)

pub find-above :
    (low id : ℕ) (cs : List Client) (client : Client)
    → above low cs ≡ true
    → find cs id ≡ some client
    → (client.id ≡ id) × (low < id) × (id ≤ max_users) × (client.online ≡ true)
unfolding find
find-above low id [] client a e = cc
find-above low id (c ∷ cs) client a e = elim (Bool-cases (c.id == id)) [
  | inl same ↦
      subst (λ (d : Client). (d.id ≡ id) × (low < id) × (id ≤ max_users) × (d.online ≡ true))
        {x = c} {y = client} (ground arith) (ground arith, ground arith, ground arith, ground arith)
  | inr other ↦
      let later = find-above c.id id cs client (ground arith) (ground arith) in
      (later.0, ground (arith, later.1), later.2, later.3)
]

-- No user has the id.
abbrev pub is_free : List Client → ℕ → Bool
is_free clients id = is_none (find_client_by_id clients id)

abbrev pub IsFirstFree : List Client → ℕ → ℕ → Option ℕ → Type 0
IsFirstFree clients low high none = (j : ℕ) → low ≤ j → j < high → is_free clients j ≡ false
IsFirstFree clients low high (some id) =
    (low ≤ id)
    × (id < high)
    × (is_free clients id ≡ true)
    × ((j : ℕ) → low ≤ j → j < id → is_free clients j ≡ false)

later-IsFirstFree :
    (clients : List Client) (low high : ℕ) (found : Option ℕ)
    → is_free clients low ≡ false
    → IsFirstFree clients (low + 1) high found
    → IsFirstFree clients low high found
later-IsFirstFree clients low high none taken f = λ j l h. elim (Bool-cases (j == low)) [
  | inl e ↦ subst (λ k. is_free clients k ≡ false) (ground arith) taken
  | inr e ↦ f j (ground arith) h
]
later-IsFirstFree clients low high (some id) taken (l, h, free, before) = (
  omega arith,
  h,
  free,
  λ j a b. elim (Bool-cases (j == low)) [
    | inl e ↦ subst (λ k. is_free clients k ≡ false) (ground arith) taken
    | inr e ↦ before j (ground arith) b
  ],
)

first_unused-IsFirstFree :
    (clients : List Client) (id n : ℕ) → IsFirstFree clients id (id + n) (first_unused clients id n)
unfolding first_unused
first_unused-IsFirstFree clients id zero = λ j l h. absurd (omega arith)
first_unused-IsFirstFree clients id (suc n) = elim (Bool-cases (is_free clients id)) [
  | inl free ↦ rw (free) (omega arith, omega arith, free, λ j l h. absurd (omega arith))
  | inr taken ↦ rw (taken) (
      later-IsFirstFree clients id (id + suc n) (first_unused clients (id + 1) n) taken (
        subst (λ high. IsFirstFree clients (id + 1) high (first_unused clients (id + 1) n))
          (omega arith) (first_unused-IsFirstFree clients (id + 1) n)))
]

-- A new client gets the smallest id from 1 to 30 that no client who is online has, and none exactly
-- if all of these are taken.
pub smallest_unused_id-IsFirstFree :
    (clients : List Client) → IsFirstFree clients 1 31 (smallest_unused_id clients)
unfolding smallest_unused_id
smallest_unused_id-IsFirstFree clients = first_unused-IsFirstFree clients 1 30
