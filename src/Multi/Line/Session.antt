-- ===== src/Multi/Line/Session.antt =====
-- np_multi_proc.cpp: the shared memory across a whole session.
use network_programming.Base.{
  ℕ, ◌+◌, Bool, true, false, not, ◌||◌, List, [], ◌∷◌, ◌++◌, Option, none, some, Text, is_empty,
  ◌≡◌, refl, ap, ◌∙◌, arith,
}
use network_programming.Multi.Builtins.Kept.{IsHere, IsFair, IsHere-IsKept, Serves}
use network_programming.Multi.Line.{unless, unlink_all, cleanup_user, enter, serve_as, serve_client}
use network_programming.Multi.Messages.Kept.{broadcast_message-Keeps}
use network_programming.Multi.Process.{
  Process, World, Run, Outcome, running, gone, run_of, ◌>>=◌, unlinked, locked, close, with_os,
}
use network_programming.Multi.Process.Kept.{
  IsKept, AllShared, AllShared-append, Kept, Keeps, bind, then_do, skip-Keeps, event-Keeps,
  with_os-Keeps, section-Keeps,
}
use network_programming.Multi.Section.Box.{Box}
use network_programming.Multi.Section.Box.Laws.{assign_user-box}
use network_programming.Multi.Section.Invariant.{IsShared, enqueue-IsShared}
use network_programming.Multi.Section.Invariant.Users.{clear_user-IsShared, assign_user-IsShared}
use network_programming.Multi.Shared.{Shared}
use network_programming.Multi.Users.{clear_user, assign_user}
use network_programming.Rwg.Server.{Peer}
use network_programming.Multi.Line.Kept.{serve_reads-Serves}

-- The other processes keep the shared memory in order.
pub record IsOrderly (world : World) : Type 0 where
  pub others : (k : ℕ) (s : Shared) → IsShared s → IsShared (world.others k s)

IsShared-IsKept : (world : World) → IsOrderly world → IsKept world IsShared
IsShared-IsKept world orderly = record {
  sound = λ s h. h;
  others = orderly.others;
  posting = enqueue-IsShared;
}

module _ (me : ℕ) {world : World} (orderly : IsOrderly world) where
  unlink_all-Keeps : (paths : List Text) → Keeps world IsShared IsShared (unlink_all paths)
  unfolding unlink_all
  unlink_all-Keeps [] = skip-Keeps
  unlink_all-Keeps (path ∷ paths) = then_do (event-Keeps (unlinked path)) (unlink_all-Keeps paths)

  unless-Keeps :
      (b : Bool) (rest : Process (Unit {0}))
      → Keeps world IsShared IsShared rest
      → Keeps world IsShared IsShared (unless b rest)
  unless-Keeps true rest keeps = skip-Keeps
  unless-Keeps false rest keeps = keeps

  cleanup_user-Keeps :
      (announce : Bool)
      → IsFair me world
      → Keeps world (IsHere me) IsShared (cleanup_user me announce)
  unfolding cleanup_user
  cleanup_user-Keeps announce fair =
      bind
        (section-Keeps (clear_user me) (IsHere-IsKept me world fair) (λ s h. h)
          (λ s h. clear_user-IsShared me s h.in_order))
        (λ leaving. then_do (unlink_all-Keeps leaving.1) (
          unless-Keeps (not announce || is_empty leaving.0) _
            (broadcast_message-Keeps (IsShared-IsKept world orderly) me _)))

  serve_as-Keeps :
      (peer : Peer) (reads : List Text)
      → IsFair me world
      → Keeps world (IsHere me) IsShared (serve_as peer reads (some me))
  unfolding enter close
  serve_as-Keeps peer reads fair = then_do enter-Serves (
      then_do (serve_reads-Serves me fair peer.fd reads []) (
        then_do (record { kept = λ run ready. record { left = ready.left; shared = ready.shared } })
          (then_do (cleanup_user-Keeps true fair) (with_os-Keeps _))))
    where
      enter-Serves : Serves me world (enter me)
      enter-Serves = then_do (event-Keeps _) (
          bind (record { kept = λ run ready. ready })
            (λ address.
              then_do (broadcast_message-Keeps (IsHere-IsKept me world fair) me _) (event-Keeps _)))

assign_user-online :
    (pid : ℕ) (peer : Peer) (s : Shared) (id : ℕ)
    → (assign_user pid peer s).0 ≡ some id
    → ((assign_user pid peer s).1.users id).online ≡ true
assign_user-online pid peer s id e =
    ap (λ (b : Box). b.is_open) (assign_user-box id pid peer s) ∙ rw (e) (ground arith)

Kept-left : {A : Type 0} (o : Outcome A) → Kept IsShared o → AllShared (run_of o).left
Kept-left (running a run) ready = ready.left
Kept-left (gone run) left = left

-- If the shared memory is in order where a process begins to serve a client, the other processes keep
-- it in order between its sections, and they leave the user online whose id it gets, then whatever the
-- client sends and the system answers, the shared memory is in order at the end of every section of
-- the whole session: the users online have an id from 1 to 30, every text and every array of messages
-- fits its bytes, and both ends of every pipe between users are online.
pub serve_client-AllShared :
    (pid : ℕ) (peer : Peer) (reads : List Text) (world : World) (run : Run)
    → IsShared run.shared
    → AllShared run.left
    → IsOrderly world
    → ((id : ℕ)
        → (assign_user pid peer (world.others run.sections run.shared)).0 ≡ some id
        → IsFair id world)
    → AllShared (run_of (serve_client pid peer reads world run)).left
unfolding serve_client ◌>>=◌ locked close with_os
serve_client-AllShared pid peer reads world run in_order left orderly fair =
    go (assign_user pid peer s).0 refl
  where
    s : Shared
    s = world.others run.sections run.shared

    kept_in_order : IsShared (assign_user pid peer s).1
    kept_in_order =
        assign_user-IsShared pid peer s (orderly.others run.sections run.shared in_order)

    run' : Run
    run' = record run {
      shared = (assign_user pid peer s).1;
      sections = run.sections + 1;
      left = run.left ++ (assign_user pid peer s).1 ∷ [];
    }

    go :
        (given : Option ℕ)
        → (assign_user pid peer s).0 ≡ given
        → AllShared (run_of (serve_as peer reads given world run')).left
    go none e = AllShared-append run.left _ left kept_in_order
    go (some me) e = Kept-left (serve_as peer reads (some me) world run') (
        (serve_as-Keeps me orderly peer reads (fair me e)).kept run' (record {
          left = AllShared-append run.left _ left kept_in_order;
          shared = record { in_order = kept_in_order; online = assign_user-online pid peer s me e };
        }))
