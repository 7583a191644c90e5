-- ===== src/Multi/Section/Box/Laws.antt =====
-- np_multi_proc.cpp: the message arrays of the shared memory beside the boxes.
use network_programming.Base.{
  ℕ, zero, suc, ◌+◌, Bool, true, false, ◌&&◌, List, [], ◌∷◌, Option, none, some, Text, ◌==◌, ==_iff,
  subst, if◌then◌else◌, ◌≡◌, refl, arith, Bool-cases, inl, inr,
}
use network_programming.Multi.Section.{
  Section, assigning, clearing, posting, flushing, naming, taking, giving, execute, execute_all,
  written_in, delivered,
}
use network_programming.Multi.Shared.{
  Shared, SharedUser, is_valid_id, queued, named, set_user, set_pipe, flush, enqueue, rename,
  take_pipe, give_pipe,
}
use network_programming.Multi.Users.{
  assigned, assign_at, assign_user, clear_user, drop_pipe, drop_pipes, first_offline,
}
use network_programming.Rwg.Clients.{max_users}
use network_programming.Rwg.Server.{Peer}
use network_programming.Multi.Section.Box.{
  opened, closed, posted, emptied, nothing, next_box, taken, take_all, last_box, is_given, turn,
  turns, box_of,
}

pub drop_pipe-users : (a b : ℕ) (s : Shared) (id : ℕ) → (drop_pipe a b s).1.users id ≡ s.users id
unfolding drop_pipe set_pipe
drop_pipe-users a b s id = ground arith

pub drop_pipes-users :
    (me peer n : ℕ) (s : Shared) (id : ℕ) → (drop_pipes me peer n s).1.users id ≡ s.users id
unfolding drop_pipes
drop_pipes-users me peer zero s id = refl
drop_pipes-users me peer (suc n) s id =
    let t = (drop_pipe me peer s).1 in
    let u = (drop_pipe peer me t).1 in
    rw (drop_pipes-users me (peer + 1) n u id, drop_pipe-users peer me t id)
      (drop_pipe-users me peer s id)

set_user-same : (id : ℕ) (x : SharedUser) (s : Shared) → (set_user id x s).users id ≡ x
unfolding set_user
set_user-same id x s = ground arith

set_user-other :
    (user id : ℕ) (x : SharedUser) (s : Shared)
    → (user == id) ≡ false
    → (set_user user x s).users id ≡ s.users id
unfolding set_user
set_user-other user id x s other = ground arith

-- Where the user is the one whose box is asked for, and where it is another.
by_user :
    (P : ℕ → Bool → Type 0) (user id : ℕ)
    → P user true
    → ((user == id) ≡ false → P id false)
    → P id (user == id)
by_user P user id same other = elim (Bool-cases (user == id)) [
  | inl e ↦ rw (e) (subst (λ n. P n true) ((==_iff user id).0 e) same)
  | inr e ↦ rw (e) (other e)
]

clear_user-box :
    (user id : ℕ) (s : Shared)
    → box_of id (clear_user user s).1 ≡ next_box (turn id (clearing user) s) (box_of id s)
unfolding clear_user
clear_user-box user id s =
    let leaving = record (s.users user) { online = false; messages = [] } in
    let kept = drop_pipes-users user 1 30 (set_user user leaving s) in
    by_user
      (λ n same.
        box_of n (clear_user user s).1
        ≡ next_box (if same && is_valid_id n then closed else nothing) (box_of n s))
      user id (ground (arith, kept user, set_user-same user leaving s))
      (λ other. ground (arith, kept id, set_user-other user id leaving s other))

pub enqueue-box :
    (target id : ℕ) (message : Text) (s : Shared)
    → box_of id (enqueue target message s).1
      ≡ next_box (turn id (posting target message) s) (box_of id s)
unfolding enqueue
enqueue-box target id message s =
    by_user
      (λ n same.
        box_of n (enqueue target message s).1
        ≡ next_box (if same then posted message else nothing) (box_of n s))
      target id (ground (arith, set_user-same target (queued message (s.users target)) s))
      (λ other. ground (arith, set_user-other target id (queued message (s.users target)) s other))

flush-box :
    (me id : ℕ) (s : Shared)
    → box_of id (flush me s).1 ≡ next_box (turn id (flushing me) s) (box_of id s)
unfolding flush
flush-box me id s =
    by_user
      (λ n same.
        box_of n (flush me s).1 ≡ next_box (if same then emptied else nothing) (box_of n s))
      me id (ground (arith, set_user-same me (record (s.users me) { messages = [] }) s))
      (λ other.
        ground (arith, set_user-other me id (record (s.users me) { messages = [] }) s other))

pub rename-box :
    (me id : ℕ) (name : Text) (s : Shared) → box_of id (rename me name s).1 ≡ box_of id s
unfolding rename
rename-box me id name s =
    by_user (λ n same. box_of n (rename me name s).1 ≡ box_of n s) me id
      (ground (arith, set_user-same me (named name (s.users me)) s))
      (λ other. ground (arith, set_user-other me id (named name (s.users me)) s other))

pub assign_user-box :
    (id pid : ℕ) (peer : Peer) (s : Shared)
    → box_of id (assign_user pid peer s).1 ≡ next_box (turn id (assigning pid peer) s) (box_of id s)
unfolding assign_user
assign_user-box id pid peer s = go (first_offline 1 max_users s)
  where
    go :
        (given : Option ℕ)
        → box_of id (assign_at given pid peer s).1
          ≡ next_box
              (if is_given id (assign_at given pid peer s).0 then opened else nothing)
              (box_of id s)
    go none = refl
    go (some given) =
        by_user
          (λ n same.
            box_of n (assign_at (some given) pid peer s).1
            ≡ next_box (if same then opened else nothing) (box_of n s))
          given id (ground (arith, set_user-same given (assigned given pid peer) s))
          (λ other. ground (arith, set_user-other given id (assigned given pid peer) s other))

pub take_pipe-box : (me from id : ℕ) (s : Shared) → box_of id (take_pipe me from s).1 ≡ box_of id s
unfolding take_pipe set_pipe
take_pipe-box me from id s = ground arith

pub give_pipe-box : (me to id : ℕ) (s : Shared) → box_of id (give_pipe me to s).1 ≡ box_of id s
unfolding give_pipe set_pipe
give_pipe-box me to id s = ground arith

pub execute-box :
    (id : ℕ) (section : Section) (s : Shared)
    → box_of id (execute section s) ≡ next_box (turn id section s) (box_of id s)
unfolding execute
execute-box id (assigning pid peer) s = assign_user-box id pid peer s
execute-box id (clearing user) s = clear_user-box user id s
execute-box id (posting target message) s = enqueue-box target id message s
execute-box id (flushing me) s = flush-box me id s
execute-box id (naming me name) s = rename-box me id name s
execute-box id (taking me from) s = take_pipe-box me from id s
execute-box id (giving me to) s = give_pipe-box me to id s

written_in-taken :
    (id : ℕ) (section : Section) (s : Shared)
    → written_in id section s ≡ taken (turn id section s) (box_of id s)
unfolding flush
written_in-taken id (assigning pid peer) s =
    elim (is_given id (assign_user pid peer s).0)
      as (λ b. [] ≡ taken (if b then opened else nothing) (box_of id s)) [
        | true ↦ refl
        | false ↦ refl
      ]
written_in-taken id (clearing user) s = ground arith
written_in-taken id (posting target message) s = ground arith
written_in-taken id (flushing me) s =
    by_user
      (λ n same.
        (if same then (s.users me).messages else [])
        ≡ taken (if same then emptied else nothing) (box_of n s))
      me id refl (λ other. refl)
written_in-taken id (naming me name) s = refl
written_in-taken id (taking me from) s = refl
written_in-taken id (giving me to) s = refl

-- Over any sections of any processes, the message array of each user is a box: what the handler writes
-- is what is taken from the box over the turns that the sections are to it, and the array and the online
-- flag that they leave are the box that the turns leave.
pub execute_all-box :
    (id : ℕ) (sections : List Section) (s : Shared)
    → (delivered id sections s ≡ take_all (turns id sections s) (box_of id s))
      × (box_of id (execute_all sections s) ≡ last_box (turns id sections s) (box_of id s))
unfolding delivered execute_all turns take_all last_box
execute_all-box id [] s = (refl, refl)
execute_all-box id (section ∷ sections) s =
    let (writes, leaves) = execute_all-box id sections (execute section s) in
    let box = execute-box id section s in
    (rw (← box, writes, written_in-taken id section s) refl, rw (last_box, ← box) leaves)
