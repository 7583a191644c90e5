-- ===== src/Multi/Section/Invariant.antt =====
-- np_multi_proc.cpp: when the shared memory is in order, and each locked section.
pub mod Users
use network_programming.Base.{
  ℕ, zero, suc, ◌+◌, ◌-◌, ◌≤◌, ◌<◌, Bool, true, false, not, ◌&&◌, List, [], ◌∷◌, ◌++◌, Option, none,
  some, Text, ltb, leb, ◌==◌, if◌then◌else◌, length, take, all, ◌≡◌, refl, arith, Bool-cases, inl,
  inr, length-append, all-append, ==_iff, subst, sym, if_both,
}
use network_programming.Multi.Section.{
  Section, assigning, clearing, posting, flushing, naming, taking, giving, execute,
}
use network_programming.Multi.Shared.{
  Shared, Between, SharedUser, c_string, copy_string, message_size, max_messages, name_size,
  ip_size, is_valid_id, queued, named, set_user, set_pipe, flush, enqueue, rename, take_pipe,
  give_pipe,
}
use network_programming.Multi.Users.{
  assigned, assign_at, assign_user, clear_user, drop_pipe, drop_pipes, first_offline,
}
use network_programming.Rwg.Clients.{max_users}
use network_programming.Rwg.Server.{Peer}

-- A row fits the arrays of the struct, each text with its zero byte.
pub record IsRow (id : ℕ) (user : SharedUser) : Type 0 where
  pub valid : user.online ≡ true → is_valid_id id ≡ true
  pub own_id : user.online ≡ true → user.id ≡ id
  pub name : length user.name < name_size
  pub ip : length user.ip < ip_size
  pub count : length user.messages ≤ max_messages
  pub sizes : all (λ m. ltb (length m) message_size) user.messages ≡ true

pub record IsShared (s : Shared) : Type 0 where
  pub rows : (id : ℕ) → IsRow id (s.users id)
  pub pipe_ends :
      (a b : ℕ)
      → s.user_pipe_exists a b ≡ true
      → ((s.users a).online ≡ true) × ((s.users b).online ≡ true)

length-take : (n : ℕ) (s : Text) → length (take n s) ≤ n
length-take zero s = omega arith
length-take (suc n) [] = omega arith
length-take (suc n) (c ∷ s) = omega (arith, length-take n s)

pub length-copy_string : (size : ℕ) (s : Text) → 0 < size → length (copy_string size s) < size
unfolding copy_string
length-copy_string size s h = omega (arith, length-take (size - 1) (c_string s))

pub set_user-IsShared :
    (id : ℕ) (user : SharedUser) (s : Shared)
    → IsRow id user
    → ((s.users id).online ≡ true → user.online ≡ true)
    → IsShared s
    → IsShared (set_user id user s)
unfolding set_user
set_user-IsShared id user s row stays h = record {
  rows = λ i. elim (Bool-cases (i == id)) [
    | inl same ↦ rw (same) (subst (λ n. IsRow n user) (sym ((==_iff i id).0 same)) row)
    | inr other ↦ rw (other) (h.rows i)
  ];
  pipe_ends = λ a b e. ground (arith, h.pipe_ends a b e);
}

set_pipe-IsShared :
    (a b : ℕ) (flag : Bool) (s : Shared)
    → (flag ≡ true → ((s.users a).online ≡ true) × ((s.users b).online ≡ true))
    → IsShared s
    → IsShared (set_pipe a b flag s)
unfolding set_pipe
set_pipe-IsShared a b flag s given h = record {
  rows = h.rows;
  pipe_ends = λ i j e. elim (Bool-cases (i == a && j == b)) [
    | inl same ↦ ground (arith, given)
    | inr other ↦ h.pipe_ends i j (ground arith)
  ];
}

pub flush-IsShared : (me : ℕ) (s : Shared) → IsShared s → IsShared (flush me s).1
unfolding flush
flush-IsShared me s h =
    let row = h.rows me in
    set_user-IsShared me _ s
      (record {
        valid = row.valid;
        own_id = row.own_id;
        name = row.name;
        ip = row.ip;
        count = omega arith;
        sizes = refl;
      })
      (λ e. e) h

pub enqueue-IsShared :
    (target : ℕ) (message : Text) (s : Shared) → IsShared s → IsShared (enqueue target message s).1
unfolding enqueue
enqueue-IsShared target message s h =
    if_both (λ (r : Option ℕ × Shared). IsShared r.1) (s.users target).online
      (set_user-IsShared target (queued message (s.users target)) s queued-IsRow (λ e. ground arith)
        h)
      h
  where
    queued-IsRow : IsRow target (queued message (s.users target))
    queued-IsRow = elim (Bool-cases (ltb (length (s.users target).messages) 64)) [
      | inl room ↦
          let row = h.rows target in
          rw (room) (record {
            valid = row.valid;
            own_id = row.own_id;
            name = row.name;
            ip = row.ip;
            count = ground (
              arith,
              length-append (s.users target).messages (copy_string message_size message ∷ []),
            );
            sizes =
                rw
                  (
                    all-append (λ m. ltb (length m) message_size) (s.users target).messages
                        (copy_string message_size message ∷ []),
                    row.sizes,
                  )
                  (ground (arith, length-copy_string message_size message (omega arith)));
          })
      | inr full ↦ rw (full) (h.rows target)
    ]

pub rename-IsShared :
    (me : ℕ) (name : Text) (s : Shared) → IsShared s → IsShared (rename me name s).1
unfolding rename
rename-IsShared me name s h =
    let row = h.rows me in
    if_both (λ (r : Option Text × Shared). IsShared r.1) _ h
      (set_user-IsShared me (named name (s.users me)) s
        (record {
          valid = row.valid;
          own_id = row.own_id;
          name = length-copy_string 64 name (omega arith);
          ip = row.ip;
          count = row.count;
          sizes = row.sizes;
        })
        (λ e. e) h)

pub take_pipe-IsShared : (me from : ℕ) (s : Shared) → IsShared s → IsShared (take_pipe me from s).1
unfolding take_pipe
take_pipe-IsShared me from s h =
    if_both (λ (r : Between × Shared). IsShared r.1) (is_valid_id from)
      (if_both IsShared ((s.users from).online && s.user_pipe_exists from me)
        (set_pipe-IsShared from me false s (λ e. absurd (ground arith)) h) h)
      h

pub give_pipe-IsShared :
    (me to : ℕ) (s : Shared)
    → (s.users me).online ≡ true
    → IsShared s
    → IsShared (give_pipe me to s).1
unfolding give_pipe
give_pipe-IsShared me to s here h = elim (Bool-cases (s.users to).online) [
  | inl online ↦
      if_both (λ (r : Between × Shared). IsShared r.1) (is_valid_id to)
        (if_both IsShared ((s.users to).online && not (s.user_pipe_exists me to))
          (set_pipe-IsShared me to true s (λ e. (here, online)) h) h)
        h
  | inr offline ↦
      if_both (λ (r : Between × Shared). IsShared r.1) (is_valid_id to)
        (subst
          (λ b. IsShared (if b && not (s.user_pipe_exists me to) then set_pipe me to true s else s))
          (sym offline) h)
        h
]
