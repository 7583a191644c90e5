-- ===== src/Multi/Section/Invariant/Users.antt =====
-- np_multi_proc.cpp: the sections of assignUser and cleanupUser, and the shared memory in order.
use network_programming.Base.{
  ℕ, zero, suc, ◌+◌, ◌≤◌, ◌<◌, true, false, ◌&&◌, ◌||◌, List, [], Option, none, some, Text, ◌==◌,
  if◌then◌else◌, ◌≡◌, refl, arith, Bool-cases, inl, inr, if_both,
}
use network_programming.Multi.Shared.{Shared, SharedUser, is_valid_id, set_user, set_pipe}
use network_programming.Multi.Users.{
  assigned, assign_at, assign_user, clear_user, drop_pipe, drop_pipes, first_offline,
}
use network_programming.Rwg.Clients.{max_users}
use network_programming.Rwg.Server.{Peer}
use network_programming.Multi.Section.Invariant.{
  IsRow, IsShared, set_user-IsShared, length-copy_string,
}
use network_programming.Multi.Section.Box.Laws.{drop_pipes-users}

drop_pipe-flag :
    (a b : ℕ) (s : Shared) (i j : ℕ)
    → (drop_pipe a b s).1.user_pipe_exists i j
      ≡ (if i == a && j == b then false else s.user_pipe_exists i j)
unfolding drop_pipe set_pipe
drop_pipe-flag a b s i j = ground arith

abbrev pub dropped : ℕ → ℕ → Shared → Shared
dropped id peer s = (drop_pipe peer id (drop_pipe id peer s).1).1

pub dropped-flag :
    (id peer : ℕ) (s : Shared) (i j : ℕ)
    → (dropped id peer s).user_pipe_exists i j
      ≡ (if (i == peer && j == id) || (i == id && j == peer) then false else s.user_pipe_exists i j)
dropped-flag id peer s i j =
    ground (arith, drop_pipe-flag id peer s i j, drop_pipe-flag peer id (drop_pipe id peer s).1 i j)

drop_pipes-flag :
    (id peer n : ℕ) (s : Shared) (i j : ℕ)
    → (drop_pipes id peer n s).1.user_pipe_exists i j ≡ true
    → s.user_pipe_exists i j ≡ true
unfolding drop_pipes
drop_pipes-flag id peer zero s i j e = e
drop_pipes-flag id peer (suc n) s i j e =
    ground
      (arith, drop_pipes-flag id (peer + 1) n (dropped id peer s) i j e, dropped-flag id peer s i j)

-- No pipe is left between the user and the peers of the loop.
drop_pipes-clears :
    (id peer n : ℕ) (s : Shared) (i : ℕ)
    → peer ≤ i
    → i < peer + n
    → ((drop_pipes id peer n s).1.user_pipe_exists id i ≡ false)
      × ((drop_pipes id peer n s).1.user_pipe_exists i id ≡ false)
unfolding drop_pipes
drop_pipes-clears id peer zero s i low high = absurd (omega arith)
drop_pipes-clears id peer (suc n) s i low high = elim (Bool-cases (i == peer)) [
  | inl this ↦
      let t = dropped id peer s in
      (
        ground (arith, drop_pipes-flag id (peer + 1) n t id i, dropped-flag id peer s id i),
        ground (arith, drop_pipes-flag id (peer + 1) n t i id, dropped-flag id peer s i id),
      )
  | inr other ↦ drop_pipes-clears id (peer + 1) n (dropped id peer s) i (ground arith) (omega arith)
]

abbrev pub leaving : ℕ → Shared → SharedUser
leaving id s = record (s.users id) { online = false; messages = [] }

abbrev pub offline : ℕ → Shared → Shared
offline id s = set_user id (leaving id s) s

-- The shared memory behind the section, for a user who is online.
abbrev pub left : ℕ → Shared → Shared
left id s = (drop_pipes id 1 max_users (offline id s)).1

pub left-users :
    (id : ℕ) (s : Shared) (i : ℕ)
    → (left id s).users i ≡ (if i == id then leaving id s else s.users i)
unfolding set_user
left-users id s i = drop_pipes-users id 1 max_users (offline id s) i

left-flag :
    (id : ℕ) (s : Shared) (a b : ℕ)
    → (left id s).user_pipe_exists a b ≡ true
    → s.user_pipe_exists a b ≡ true
unfolding set_user
left-flag id s a b e = drop_pipes-flag id 1 max_users (offline id s) a b e

module _ (id : ℕ) (s : Shared) (h : IsShared s) where
  left-IsRow : (i : ℕ) → IsRow i ((left id s).users i)
  left-IsRow i = elim (Bool-cases (i == id)) [
    | inl same ↦
        rw (left-users id s i, same)
          (record {
            valid = λ e. absurd (ground arith);
            own_id = λ e. absurd (ground arith);
            name = (h.rows id).name;
            ip = (h.rows id).ip;
            count = omega arith;
            sizes = refl;
          })
    | inr other ↦ rw (left-users id s i, other) (h.rows i)
  ]

  -- No pipe that is left has the user at an end.
  left-ends :
      (a b : ℕ)
      → (left id s).user_pipe_exists a b ≡ true
      → ((a == id) ≡ false) × ((b == id) ≡ false)
  left-ends a b e =
      let (online_a, online_b) = h.pipe_ends a b (left-flag id s a b e) in
      let valid_a = (h.rows a).valid online_a in
      let valid_b = (h.rows b).valid online_b in
      (
        ground (arith, drop_pipes-clears id 1 max_users (offline id s) b),
        ground (arith, drop_pipes-clears id 1 max_users (offline id s) a),
      )

  left-pipe_ends :
      (a b : ℕ)
      → (left id s).user_pipe_exists a b ≡ true
      → (((left id s).users a).online ≡ true) × (((left id s).users b).online ≡ true)
  left-pipe_ends a b e =
      let (online_a, online_b) = h.pipe_ends a b (left-flag id s a b e) in
      let (not_a, not_b) = left-ends a b e in
      (rw (left-users id s a, not_a) online_a, rw (left-users id s b, not_b) online_b)

  pub clear_user-IsShared : IsShared (clear_user id s).1
  unfolding clear_user
  clear_user-IsShared =
      if_both (λ (r : (Text × List Text) × Shared). IsShared r.1)
        (is_valid_id id && (s.users id).online)
        (record { rows = left-IsRow; pipe_ends = left-pipe_ends }) h

first_offline-bound :
    (id n : ℕ) (s : Shared) (i : ℕ) → first_offline id n s ≡ some i → (id ≤ i) × (i < id + n)
unfolding first_offline
first_offline-bound id zero s i e = absurd (ground arith)
first_offline-bound id (suc n) s i e = ground (arith, first_offline-bound (id + 1) n s i)

pub assign_user-IsShared :
    (pid : ℕ) (peer : Peer) (s : Shared) → IsShared s → IsShared (assign_user pid peer s).1
unfolding assign_user
assign_user-IsShared pid peer s h = go (first_offline 1 max_users s) refl
  where
    go :
        (given : Option ℕ)
        → first_offline 1 max_users s ≡ given
        → IsShared (assign_at given pid peer s).1
    go none e = h
    go (some id) e =
        let bound = first_offline-bound 1 30 s id e in
        set_user-IsShared id (assigned id pid peer) s
          (record {
            valid = λ _. ground (arith, bound);
            own_id = λ _. refl;
            name = length-copy_string 64 _ (omega arith);
            ip = length-copy_string 64 peer.ip (omega arith);
            count = omega arith;
            sizes = refl;
          })
          (λ _. refl) h
