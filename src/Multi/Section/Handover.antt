-- ===== src/Multi/Section/Handover.antt =====
-- np_multi_proc.cpp: a pipe from one user to another across the sections of all processes.
use network_programming.Base.{
  ℕ, zero, suc, ◌+◌, Bool, true, false, not, ◌&&◌, ◌||◌, List, [], ◌∷◌, Option, none, some, Text,
  ◌==◌, if◌then◌else◌, all, ◌≡◌, refl, arith, ap, ◌∙◌, if_both,
}
use network_programming.Multi.Section.Box.{Box, opened, nothing, next_box, turn, box_of, is_given}
use network_programming.Multi.Section.Box.Laws.{execute-box}
use network_programming.Multi.Section.Invariant.Users.{dropped, dropped-flag}
use network_programming.Multi.Section.{
  Section, assigning, clearing, posting, flushing, naming, taking, giving, execute, execute_all,
}
use network_programming.Multi.Shared.{
  Shared, Between, endpoint, named, name_taken_from, is_valid_id, set_user, set_pipe, flush,
  enqueue, rename, take_pipe, give_pipe,
}
use network_programming.Multi.Users.{assign_at, assign_user, first_offline, clear_user, drop_pipes}
use network_programming.Rwg.Clients.{max_users}

-- The receiver takes the pipe from `a` to `b`, or one of the two leaves.
abbrev pub ends_pipe : ℕ → ℕ → Section → Bool
ends_pipe a b (taking me from) = me == b && from == a
ends_pipe a b (clearing id) = id == a || id == b
ends_pipe a b section = false

-- The pipe from `a` to `b` waits for its receiver.
record IsWaiting (a b : ℕ) (s : Shared) : Type 0 where
  pub flag : s.user_pipe_exists a b ≡ true
  pub online : (s.users a).online ≡ true

drop_pipes-other :
    (id peer n : ℕ) (s : Shared) (a b : ℕ)
    → (id == a || id == b) ≡ false
    → (drop_pipes id peer n s).1.user_pipe_exists a b ≡ s.user_pipe_exists a b
unfolding drop_pipes
drop_pipes-other id peer zero s a b other = refl
drop_pipes-other id peer (suc n) s a b other =
    drop_pipes-other id (peer + 1) n (dropped id peer s) a b other
    ∙ (dropped-flag id peer s a b ∙ ground arith)

clear_user-flag :
    (id : ℕ) (s : Shared) (a b : ℕ)
    → (id == a || id == b) ≡ false
    → (clear_user id s).1.user_pipe_exists a b ≡ s.user_pipe_exists a b
unfolding clear_user set_user
clear_user-flag id s a b other =
    if_both (λ (r : (Text × List Text) × Shared). r.1.user_pipe_exists a b ≡ s.user_pipe_exists a b)
      (is_valid_id id && (s.users id).online) (drop_pipes-other id 1 max_users _ a b other) refl

set_pipe-flag :
    (x y : ℕ) (flag : Bool) (s : Shared) (a b : ℕ)
    → (a == x && b == y && not flag) ≡ false
    → s.user_pipe_exists a b ≡ true
    → (set_pipe x y flag s).user_pipe_exists a b ≡ true
unfolding set_pipe
set_pipe-flag x y flag s a b kept set = ground arith

execute-flag :
    (a b : ℕ) (section : Section) (s : Shared)
    → ends_pipe a b section ≡ false
    → s.user_pipe_exists a b ≡ true
    → (execute section s).user_pipe_exists a b ≡ true
unfolding execute enqueue flush rename take_pipe give_pipe set_user assign_user
execute-flag a b (assigning pid peer) s goes_on flag =
    elim (first_offline 1 max_users s)
      as (λ given. (assign_at given pid peer s).1.user_pipe_exists a b ≡ true) [
        | none ↦ flag
        | some id ↦ flag
      ]
execute-flag a b (clearing id) s goes_on flag = clear_user-flag id s a b goes_on ∙ flag
execute-flag a b (posting target message) s goes_on flag =
    if_both (λ (r : Option ℕ × Shared). r.1.user_pipe_exists a b ≡ true) (s.users target).online
      flag flag
execute-flag a b (flushing me) s goes_on flag = flag
execute-flag a b (naming me name) s goes_on flag =
    if_both (λ (r : Option Text × Shared). r.1.user_pipe_exists a b ≡ true)
      (name_taken_from 1 max_users name s) {x = (none, s)}
      {y = (some (endpoint (s.users me)), set_user me (named name (s.users me)) s)} flag flag
execute-flag a b (taking me from) s goes_on flag =
    if_both (λ (r : Between × Shared). r.1.user_pipe_exists a b ≡ true) (is_valid_id from)
      (if_both (λ (t : Shared). t.user_pipe_exists a b ≡ true)
        ((s.users from).online && s.user_pipe_exists from me) {x = set_pipe from me false s} {y = s}
        (set_pipe-flag from me false s a b (ground arith) flag) flag)
      flag
execute-flag a b (giving me to) s goes_on flag =
    if_both (λ (r : Between × Shared). r.1.user_pipe_exists a b ≡ true) (is_valid_id to)
      (if_both (λ (t : Shared). t.user_pipe_exists a b ≡ true)
        ((s.users to).online && not (s.user_pipe_exists me to)) {x = set_pipe me to true s} {y = s}
        (set_pipe-flag me to true s a b (ground arith) flag) flag)
      flag

turn-open :
    (a b : ℕ) (section : Section) (s : Shared) (box : Box)
    → ends_pipe a b section ≡ false
    → box.is_open ≡ true
    → (next_box (turn a section s) box).is_open ≡ true
turn-open a b (assigning pid peer) s box goes_on here =
    elim (is_given a (assign_user pid peer s).0)
      as (λ g. (next_box (if g then opened else nothing) box).is_open ≡ true) [
        | true ↦ refl
        | false ↦ here
      ]
turn-open a b (clearing id) s box goes_on here = ground arith
turn-open a b (posting target message) s box goes_on here = ground arith
turn-open a b (flushing me) s box goes_on here = ground arith
turn-open a b (naming me name) s box goes_on here = here
turn-open a b (taking me from) s box goes_on here = here
turn-open a b (giving me to) s box goes_on here = here

execute_all-IsWaiting :
    (a b : ℕ) (sections : List Section) (s : Shared)
    → all (λ section. not (ends_pipe a b section)) sections ≡ true
    → IsWaiting a b s
    → IsWaiting a b (execute_all sections s)
unfolding execute_all
execute_all-IsWaiting a b [] s goes_on waiting = waiting
execute_all-IsWaiting a b (section ∷ sections) s goes_on waiting =
    let this : ends_pipe a b section ≡ false = ground arith in
    execute_all-IsWaiting a b sections (execute section s) (ground arith) (record {
      flag = execute-flag a b section s this waiting.flag;
      online =
          ap (λ (x : Box). x.is_open) (execute-box a section s)
          ∙ turn-open a b section s (box_of a s) this waiting.online;
    })

found-waiting :
    (a b : ℕ) (t : Shared)
    → is_valid_id a ≡ true
    → is_valid_id b ≡ true
    → IsWaiting a b t
    → ((give_pipe a b t).0.pipe_exists ≡ true)
      × ((take_pipe b a t).0.other_exists ≡ true)
      × ((take_pipe b a t).0.pipe_exists ≡ true)
      × ((take_pipe b a t).1.user_pipe_exists a b ≡ false)
unfolding give_pipe take_pipe set_pipe
found-waiting a b t valid_a valid_b waiting = (
  ground (arith, waiting.flag),
  ground (arith, waiting.online),
  ground (arith, waiting.flag),
  ground (arith, waiting.flag, waiting.online),
)

-- Where user `a` is online and gives a pipe to user `b`, who is online and has none from `a`: over
-- any sections of any processes in which `b` does not take it and neither leaves, the pipe waits.
-- A second pipe from `a` to `b` is refused, `b` then finds it, and it is gone once it is taken.
pub take_pipe-give_pipe :
    (a b : ℕ) (sections : List Section) (s : Shared)
    → is_valid_id a ≡ true
    → is_valid_id b ≡ true
    → (s.users a).online ≡ true
    → (s.users b).online ≡ true
    → s.user_pipe_exists a b ≡ false
    → all (λ section. not (ends_pipe a b section)) sections ≡ true
    → let t = execute_all sections (give_pipe a b s).1 in
      ((give_pipe a b t).0.pipe_exists ≡ true)
      × ((take_pipe b a t).0.other_exists ≡ true)
      × ((take_pipe b a t).0.pipe_exists ≡ true)
      × ((take_pipe b a t).1.user_pipe_exists a b ≡ false)
unfolding give_pipe take_pipe set_pipe
take_pipe-give_pipe a b sections s valid_a valid_b online_a online_b free goes_on =
    let given : IsWaiting a b (give_pipe a b s).1 = record {
      flag = ground arith;
      online = ground arith;
    } in
    let waiting = execute_all-IsWaiting a b sections (give_pipe a b s).1 goes_on given in
    found-waiting a b (execute_all sections (give_pipe a b s).1) valid_a valid_b waiting
