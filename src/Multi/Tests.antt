-- ===== src/Multi/Tests.antt =====
-- Runs of the processes of np_multi_proc.cpp, and each theorem at an input that meets its hypotheses.
use network_programming.Base.{
  none, ℕ, true, List, [], ◌∷◌, ◌++◌, Text, codes, false, ◌≡◌, ◌⊎◌, refl, arith, some,
}
use network_programming.Multi.Directory.{
  Change, comes, goes, AllFit, SameUsers, change_server, change_shared, change_server-change_shared,
}
use network_programming.Rwg.Clients.{find, find_client_by_id}
use network_programming.Multi.Lock.{
  Processes, all_outside, main_runs, interrupted, Steps, stay, after, main_step, signal,
}
use network_programming.Multi.Lock.Laws.{mutual_exclusion, lock_cases, Frees, KeptForever}
use network_programming.Multi.Lock.Owner.{holds}
use network_programming.Multi.Section.{
  Section, assigning, posting, flushing, naming, execute, execute_all, delivered, giving, taking,
}
use network_programming.Multi.Section.Box.{turns, box_of, take_all, last_box}
use network_programming.Multi.Section.Box.Laws.{execute_all-box}
use network_programming.Multi.Section.Box.Delivery.{delivered-posts, fits, posts}
use network_programming.Multi.Shared.{
  set_pipe, Shared, rename, name_taken_from, init_shared_memory, flush, enqueue, copy_string,
  set_user, give_pipe, take_pipe,
}
use network_programming.Multi.Users.{clear_user, drop_pipes, drop_pipe, assign_user, first_offline}
use network_programming.Rwg.Server.{Peer, empty_server}
use network_programming.Multi.Builtins.Kept.{enqueue-IsHere}
use network_programming.Multi.Line.Session.{serve_client-AllShared}
use network_programming.Multi.Line.{serve_client}
use network_programming.Rwg.Pipes.{UserPipeRequest}
use network_programming.Shell.Command.{Command, new_command}
use network_programming.ShellCore.Os.{occurs}
use network_programming.Multi.Process.Kept.{AllShared}
use network_programming.Multi.Process.{World, Run, run_of}
use network_programming.Multi.Section.Handover.{take_pipe-give_pipe}
use network_programming.Multi.Section.Invariant.{IsShared, enqueue-IsShared}
use network_programming.ShellCore.Fresh.{fresh_system}
use network_programming.ShellCore.State.{new_shell}

-- Process 1 has taken the lock, and a signal has interrupted it there.
abbrev interrupted_inside : Processes
interrupted_inside = interrupted 1 (main_runs 1 (main_runs 1 all_outside))

interrupted_inside_steps : Steps all_outside interrupted_inside
interrupted_inside_steps =
    after (after (after stay (main_step 1 refl refl)) (main_step 1 refl refl)) (signal 1 refl refl)

lock_cases_example :
    (interrupted_inside.lock ≡ 0) ⊎ Frees interrupted_inside ⊎ KeptForever interrupted_inside
lock_cases_example = lock_cases interrupted_inside_steps

mutual_exclusion_example : (◌≡◌ {A = ℕ} 1 1) × (holds interrupted_inside 1 ≡ 1)
mutual_exclusion_example = mutual_exclusion interrupted_inside_steps 1 1 (omega arith) (omega arith)

abbrev amy : Peer
amy = record { fd = 4; ip = codes "10.0.0.1"; port = 5000 }

abbrev bob : Peer
bob = record { fd = 4; ip = codes "10.0.0.2"; port = 5001 }

abbrev both_here : Shared
both_here = execute_all (assigning 100 amy ∷ assigning 101 bob ∷ []) init_shared_memory

abbrev talk : List Section
talk =
    posting 2 (codes "hello\n")
    ∷ naming 1 (codes "amy")
    ∷ posting 2 (codes "again\n")
    ∷ flushing 2
    ∷ posting 1 (codes "hi\n")
    ∷ posting 2 (codes "bye\n")
    ∷ []

talk_delivered : delivered 2 talk both_here ≡ codes "hello\n" ∷ codes "again\n" ∷ []
unfolding delivered execute_all execute assign_user first_offline set_user enqueue flush copy_string
    rename name_taken_from
talk_delivered = refl

delivered-posts_example :
    delivered 2 talk both_here ++ ((execute_all talk both_here).users 2).messages
    ≡ posts (turns 2 talk both_here)
unfolding execute_all execute assign_user first_offline set_user enqueue flush copy_string rename
    name_taken_from turns fits posts
delivered-posts_example = delivered-posts 2 talk both_here refl refl refl

-- A shared memory in which every array fits, before any process.
init_shared_memory-IsShared : IsShared init_shared_memory
init_shared_memory-IsShared = record {
  rows = λ id. record {
    valid = λ e. absurd (ground arith);
    own_id = λ e. absurd (ground arith);
    name = omega arith;
    ip = omega arith;
    count = omega arith;
    sizes = refl;
  };
  pipe_ends = λ a b e. absurd (ground arith);
}

-- The other processes send a message to user 1 between any two sections.
abbrev talking : World
talking = record {
  others = λ k s. (enqueue 1 (codes "hi\n") s).1;
  system = fresh_system;
  mkfifo = λ k path. true;
}

abbrev at_start : Run
at_start = record {
  shared = init_shared_memory;
  sections = 0;
  left = [];
  shell = new_shell;
  os = record { fds = 4 ∷ 2 ∷ 1 ∷ 0 ∷ []; calls = 0; faults = 0; spawned = [] };
  trace = [];
}

abbrev typed : List Text
typed = codes "name amy\nyell hello\nwh" ∷ codes "o\nexit\n" ∷ []

abbrev session : Run
session = run_of (serve_client 100 amy typed talking at_start)

serve_client-AllShared_example : AllShared session.left
serve_client-AllShared_example =
    serve_client-AllShared 100 amy typed talking at_start init_shared_memory-IsShared tt
      (record { others = λ k s h. enqueue-IsShared 1 (codes "hi\n") s h })
      (λ id given. record { others = λ k s h. enqueue-IsHere id 1 (codes "hi\n") s h })

execute_all-box_example :
    (delivered 2 talk both_here ≡ take_all (turns 2 talk both_here) (box_of 2 both_here))
    × (box_of 2 (execute_all talk both_here)
        ≡ last_box (turns 2 talk both_here) (box_of 2 both_here))
execute_all-box_example = execute_all-box 2 talk both_here

abbrev opened : ℕ → ℕ
opened x = occurs x (4 ∷ 2 ∷ 1 ∷ 0 ∷ [])

-- User 1 types `ls >2`.
abbrev ls : List Command
ls = record new_command { argv = codes "ls" ∷ [] } ∷ []

abbrev to_bob : UserPipeRequest
to_bob = record { input_from = none; output_to = some 2 }

abbrev changes : List Change
changes = comes 100 amy ∷ comes 101 bob ∷ goes 1 ∷ comes 102 amy ∷ []

empty-SameUsers : SameUsers empty_server.clients init_shared_memory
unfolding find_client_by_id find
empty-SameUsers = λ id valid. refl

changes-AllFit : AllFit changes
unfolding copy_string
changes-AllFit = (refl, (refl, (refl, (refl, tt))))

change_server-change_shared_example :
    ((change_server changes empty_server).0 ≡ (change_shared changes init_shared_memory).0)
    × SameUsers
        (change_server changes empty_server).1.clients
        (change_shared changes init_shared_memory).1
change_server-change_shared_example =
    change_server-change_shared changes empty_server init_shared_memory changes-AllFit
      empty-SameUsers

changes_give : (change_shared changes init_shared_memory).0 ≡ some 1 ∷ some 2 ∷ some 1 ∷ []
unfolding change_shared assign_user clear_user first_offline set_user copy_string drop_pipes
    drop_pipe set_pipe
changes_give = refl

abbrev between_them : List Section
between_them = posting 2 (codes "hello\n") ∷ naming 1 (codes "amy") ∷ giving 1 2 ∷ taking 1 2 ∷ []

abbrev waiting : Shared
waiting = execute_all between_them (give_pipe 1 2 both_here).1

take_pipe-give_pipe_example :
    ((give_pipe 1 2 waiting).0.pipe_exists ≡ true)
    × ((take_pipe 2 1 waiting).0.other_exists ≡ true)
    × ((take_pipe 2 1 waiting).0.pipe_exists ≡ true)
    × ((take_pipe 2 1 waiting).1.user_pipe_exists 1 2 ≡ false)
unfolding execute_all execute assign_user first_offline set_user copy_string
take_pipe-give_pipe_example =
    take_pipe-give_pipe 1 2 between_them both_here refl refl refl refl refl refl
