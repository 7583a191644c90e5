-- ===== src/Multi/Section.antt =====
-- np_multi_proc.cpp: the locked sections of all processes, one after another, and what the signal
-- handler of a user writes while they run.
pub mod Box
pub mod Invariant
pub mod Handover
use network_programming.Base.{ℕ, List, [], ◌∷◌, ◌++◌, Text, ◌==◌, if◌then◌else◌}
use network_programming.Multi.Shared.{Shared, flush, enqueue, rename, take_pipe, give_pipe}
use network_programming.Multi.Users.{assign_user, clear_user}
use network_programming.Rwg.Server.{Peer}

-- The sections that change the shared memory.
pub data Section : Type 0 where
  assigning : ℕ → Peer → Section
  clearing : ℕ → Section
  posting : ℕ → Text → Section
  flushing : ℕ → Section
  naming : ℕ → Text → Section
  taking : ℕ → ℕ → Section
  giving : ℕ → ℕ → Section

-- The shared memory after a section.
unfoldable pub execute : Section → Shared → Shared
unfolding assign_user clear_user enqueue flush rename take_pipe give_pipe
execute (assigning pid peer) s = (assign_user pid peer s).1
execute (clearing id) s = (clear_user id s).1
execute (posting target message) s = (enqueue target message s).1
execute (flushing me) s = (flush me s).1
execute (naming me name) s = (rename me name s).1
execute (taking me from) s = (take_pipe me from s).1
execute (giving me to) s = (give_pipe me to s).1

unfoldable pub execute_all : List Section → Shared → Shared
unfolding execute
execute_all [] s = s
execute_all (section ∷ sections) s = execute_all sections (execute section s)

-- What the handler of user `id` writes in a section.
abbrev pub written_in : ℕ → Section → Shared → List Text
written_in id (flushing me) s = if me == id then (flush me s).0 else []
written_in id section s = []

-- What the handler of user `id` writes in all of them.
unfoldable pub delivered : ℕ → List Section → Shared → List Text
unfolding execute flush
delivered id [] s = []
delivered id (section ∷ sections) s =
    written_in id section s ++ delivered id sections (execute section s)
