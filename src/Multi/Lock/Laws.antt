-- ===== src/Multi/Lock/Laws.antt =====
-- np_multi_proc.cpp: the lock over the steps of all processes.
use network_programming.Base.{
  true, ℕ, ◌≤◌, none, some, ◌≡◌, ◌≢◌, ◌⊎◌, arith, refl, Bool-cases, inl, inr,
}
use network_programming.Multi.Lock.{
  Phase, outside, waiting, inside, Processes, all_outside, main_runs, handler_runs, Step, main_step,
  handler_step, signal, dies, Steps, stay, after,
}
use network_programming.Multi.Lock.Owner.{holds, Owned, Steps-Owned, all_outside-Owned}

reached-Owned : {s : Processes} → Steps all_outside s → Owned s
reached-Owned steps = Steps-Owned steps all_outside-Owned

-- After any steps of the processes and any signals, at most one process is between lockShared and
-- unlockShared, and it is there in its own code or in its handler, not in both.
pub mutual_exclusion :
    {s : Processes}
    → Steps all_outside s
    → (i j : ℕ) → 1 ≤ holds s i
    → 1 ≤ holds s j
    → (i ≡ j) × (holds s i ≡ 1)
mutual_exclusion {s} steps i j held_i held_j =
    let (owner, owned) = reached-Owned steps in
    (ground (arith, owned.held i, owned.held j), ground (arith, owned.held i, owned.held j))

-- Process `i` holds the lock and waits for it in its handler.
pub record IsStuck (i : ℕ) (s : Processes) : Type 0 where
  pub main : s.main i ≡ inside
  pub handler : s.handler i ≡ some waiting
  pub word : s.lock ≡ 1

IsStuck-main :
    (i j : ℕ) (s : Processes)
    → s.handler j ≡ none
    → Owned s
    → IsStuck i s
    → IsStuck i (main_runs j s)
IsStuck-main i j s free (owner, owned) stuck = go (s.main j) refl
  where
    go : (phase : Phase) → s.main j ≡ phase → IsStuck i (main_runs j s)
    go phase e = record {
      main = ground (arith, stuck.main, stuck.word, stuck.handler);
      handler = stuck.handler;
      word = ground (arith, stuck.main, stuck.handler, stuck.word, owned.held i, owned.held j);
    }

IsStuck-handler :
    (i j : ℕ) (phase : Phase) (s : Processes)
    → s.handler j ≡ some phase
    → Owned s
    → IsStuck i s
    → IsStuck i (handler_runs j phase s)
IsStuck-handler i j phase s e (owner, owned) stuck = record {
  main = stuck.main;
  handler = ground (arith, stuck.main, stuck.word, stuck.handler);
  word = ground (arith, stuck.main, stuck.handler, stuck.word, owned.held i, owned.held j);
}

Step-IsStuck : {s t : Processes} (i : ℕ) → Step s t → Owned s → IsStuck i s → IsStuck i t
Step-IsStuck {s} i (main_step j alive free) owned stuck = IsStuck-main i j s free owned stuck
Step-IsStuck {s} i (handler_step j phase alive e) owned stuck =
    IsStuck-handler i j phase s e owned stuck
Step-IsStuck i (signal j alive free) owned stuck = record {
  main = stuck.main;
  handler = ground (arith, stuck.handler);
  word = stuck.word;
}
Step-IsStuck i (dies j alive) owned stuck = record {
  main = stuck.main;
  handler = stuck.handler;
  word = stuck.word;
}

-- Process `i` has died with the lock.
pub record IsAbandoned (i : ℕ) (s : Processes) : Type 0 where
  pub dead : s.ended i ≡ true
  pub held : holds s i ≡ 1
  pub word : s.lock ≡ 1

Step-IsAbandoned :
    {s t : Processes} (i : ℕ) → Step s t → Owned s → IsAbandoned i s → IsAbandoned i t
Step-IsAbandoned {s} i (main_step j alive free) (owner, owned) lost = go (s.main j) refl
  where
    go : (phase : Phase) → s.main j ≡ phase → IsAbandoned i (main_runs j s)
    go phase e = record {
      dead = lost.dead;
      held = ground (arith, lost.dead, lost.held);
      word = ground (arith, lost.dead, lost.held, lost.word, owned.held i, owned.held j);
    }
Step-IsAbandoned {s} i (handler_step j phase alive e) (owner, owned) lost = record {
  dead = lost.dead;
  held = ground (arith, lost.dead, lost.held);
  word = ground (arith, lost.dead, lost.held, lost.word, owned.held i, owned.held j);
}
Step-IsAbandoned i (signal j alive free) owned lost = record {
  dead = lost.dead;
  held = ground (arith, lost.dead, lost.held);
  word = lost.word;
}
Step-IsAbandoned i (dies j alive) owned lost = record {
  dead = ground (arith, lost.dead);
  held = lost.held;
  word = lost.word;
}

-- The process that holds the lock cannot release it.
abbrev pub IsLost : ℕ → Processes → Type 0
IsLost i s = IsStuck i s ⊎ IsAbandoned i s

Step-IsLost : {s t : Processes} (i : ℕ) → Step s t → Owned s → IsLost i s → IsLost i t
Step-IsLost i step owned (inl stuck) = inl (Step-IsStuck i step owned stuck)
Step-IsLost i step owned (inr lost) = inr (Step-IsAbandoned i step owned lost)

Steps-IsLost : {s t : Processes} (i : ℕ) → Steps s t → Owned s → IsLost i s → IsLost i t
Steps-IsLost i stay owned lost = lost
Steps-IsLost i (after steps step) owned lost =
    Step-IsLost i step (Steps-Owned steps owned) (Steps-IsLost i steps owned lost)

-- A step frees the lock.
abbrev pub Frees : Processes → Type 0
Frees s = (t : Processes) × Step s t × (t.lock ≡ 0)

-- No steps ever free the lock.
abbrev pub KeptForever : Processes → Type 0
KeptForever s = (i : ℕ) × IsLost i s × ((t : Processes) → Steps s t → IsLost i t)

kept_forever : {s : Processes} (i : ℕ) → Owned s → IsLost i s → KeptForever s
kept_forever i owned lost = (i, lost, λ t later. Steps-IsLost i later owned lost)

held-cases :
    (s : Processes) (i : ℕ)
    → s.handler i ≢ some outside
    → holds s i ≡ 1
    → (s.handler i ≡ some inside)
      ⊎ ((s.main i ≡ inside) × ((s.handler i ≡ none) ⊎ (s.handler i ≡ some waiting)))
held-cases s i returned h = ground arith

-- From the start, after any steps of the processes, signals that call the handler and signals that end
-- a process: the lock is free, or one step of the process that holds it frees it, or that process
-- waits for it in its own handler or has died with it, and then no steps whatever ever free it.
pub lock_cases : {s : Processes} → Steps all_outside s → (s.lock ≡ 0) ⊎ Frees s ⊎ KeptForever s
lock_cases {s} steps = go (reached-Owned steps)
  where
    go : Owned s → (s.lock ≡ 0) ⊎ Frees s ⊎ KeptForever s
    go (none, owned) = inl owned.word
    go (some i, owned) = elim (Bool-cases (s.ended i)) [
      | inl dead ↦ inr (
          inr (
            kept_forever i (some i, owned)
              (inr
                (record { dead = dead; held = ground (arith, owned.held i); word = owned.word }))))
      | inr alive ↦ elim (held-cases s i (owned.returned i) (ground (arith, owned.held i))) [
        | inl in_handler ↦ inr (inl (_, handler_step i inside alive in_handler, refl))
        | inr (main, inl free) ↦ inr (inl (_, main_step i alive free, ground arith))
        | inr (main, inr waits) ↦ inr (
            inr (
              kept_forever i (some i, owned)
                (inl (record { main = main; handler = waits; word = owned.word }))))
      ]
    ]
