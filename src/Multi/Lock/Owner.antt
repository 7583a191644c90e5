-- ===== src/Multi/Lock/Owner.antt =====
-- np_multi_proc.cpp: who holds the lock between lockShared and unlockShared.
use network_programming.Base.{ℕ, ◌+◌, Option, none, some, ◌≡◌, ◌≢◌, arith, refl}
use network_programming.Multi.Lock.{
  Phase, outside, waiting, inside, Processes, all_outside, main_runs, handler_runs, Step, main_step,
  handler_step, signal, dies, Steps, stay, after,
}
use network_programming.ShellCore.Os.Balance.{one}

-- Whether a phase holds the lock.
abbrev pub inside_one : Phase → ℕ
inside_one inside = 1
inside_one phase = 0

abbrev pub inside_handler : Option Phase → ℕ
inside_handler none = 0
inside_handler (some phase) = inside_one phase

-- How often process `i` holds the lock.
abbrev pub holds : Processes → ℕ → ℕ
holds s i = inside_one (s.main i) + inside_handler (s.handler i)

abbrev pub size : Option ℕ → ℕ
size none = 0
size (some owner) = 1

pub record IsOwned (owner : Option ℕ) (s : Processes) : Type 0 where
  pub word : s.lock ≡ size owner
  pub held : (i : ℕ) → holds s i ≡ one i owner
  pub returned : (i : ℕ) → s.handler i ≢ some outside

abbrev pub Owned : Processes → Type 0
Owned s = (owner : Option ℕ) × IsOwned owner s

main_runs-Owned : (i : ℕ) (s : Processes) → Owned s → Owned (main_runs i s)
main_runs-Owned i s (owner, owned) = go (s.main i) refl owner owned
  where
    go :
        (phase : Phase)
        → s.main i ≡ phase
        → (owner : Option ℕ) → IsOwned owner s
        → Owned (main_runs i s)
    go outside e owner owned = (
      owner,
      record {
        word = ground (arith, owned.word);
        held = λ j. ground (arith, owned.held j);
        returned = owned.returned;
      },
    )
    go waiting e none owned = (
      some i,
      record {
        word = ground (arith, owned.word);
        held = λ j. ground (arith, owned.word, owned.held j);
        returned = owned.returned;
      },
    )
    go waiting e (some o) owned = (
      some o,
      record {
        word = ground (arith, owned.word);
        held = λ j. ground (arith, owned.word, owned.held j);
        returned = owned.returned;
      },
    )
    go inside e owner owned = (
      none,
      record {
        word = ground (arith, owned.word);
        held = λ j. ground (arith, owned.held i, owned.held j);
        returned = owned.returned;
      },
    )

handler_runs-Owned :
    (i : ℕ) (phase : Phase) (s : Processes)
    → s.handler i ≡ some phase
    → Owned s
    → Owned (handler_runs i phase s)
handler_runs-Owned i outside s e (owner, owned) = (
  owner,
  record {
    word = owned.word;
    held = λ j. ground (arith, owned.held j);
    returned = λ j. ground (arith, owned.returned j);
  },
)
handler_runs-Owned i waiting s e (none, owned) = (
  some i,
  record {
    word = refl;
    held = λ j. ground (arith, owned.word, owned.held j);
    returned = λ j. ground (arith, owned.returned j);
  },
)
handler_runs-Owned i waiting s e (some o, owned) = (
  some o,
  record {
    word = refl;
    held = λ j. ground (arith, owned.word, owned.held j);
    returned = λ j. ground (arith, owned.returned j);
  },
)
handler_runs-Owned i inside s e (owner, owned) = (
  none,
  record {
    word = refl;
    held = λ j. ground (arith, owned.held i, owned.held j);
    returned = λ j. ground (arith, owned.returned j);
  },
)

pub Step-Owned : {s t : Processes} → Step s t → Owned s → Owned t
Step-Owned {s} (main_step i alive free) owned = main_runs-Owned i s owned
Step-Owned {s} (handler_step i phase alive e) owned = handler_runs-Owned i phase s e owned
Step-Owned {s} (signal i alive free) (owner, owned) = (
  owner,
  record {
    word = owned.word;
    held = λ j. ground (arith, owned.held j);
    returned = λ j. ground (arith, owned.returned j);
  },
)
Step-Owned (dies i alive) (owner, owned) =
    (owner, record { word = owned.word; held = owned.held; returned = owned.returned })

pub Steps-Owned : {s t : Processes} → Steps s t → Owned s → Owned t
Steps-Owned stay owned = owned
Steps-Owned (after steps step) owned = Step-Owned step (Steps-Owned steps owned)

pub all_outside-Owned : Owned all_outside
all_outside-Owned = (none, record { word = refl; held = λ i. refl; returned = λ i. ground arith })
