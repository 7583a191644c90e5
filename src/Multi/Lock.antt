-- ===== src/Multi/Lock.antt =====
-- np_multi_proc.cpp: `lockShared` and `unlockShared` among the processes, whose signal handler
-- `flushPendingMessages` takes the same lock.
pub mod Owner
pub mod Laws
use network_programming.Base.{ℕ, Bool, Option, none, some, true, false, ◌==◌, if◌then◌else◌, ◌≡◌}

-- Where the code of a process stands: behind `unlockShared`, in the loop of `lockShared`, or behind it.
pub data Phase : Type 0 where
  outside : Phase
  waiting : Phase
  inside : Phase

-- `handler` is the phase of flushPendingMessages in a process that it interrupts, and `ended` whether a
-- process has died.
pub record Processes : Type 0 where
  pub lock : ℕ
  pub main : ℕ → Phase
  pub handler : ℕ → Option Phase
  pub ended : ℕ → Bool

abbrev pub all_outside : Processes
all_outside = record { lock = 0; main = λ i. outside; handler = λ i. none; ended = λ i. false }

-- __sync_lock_test_and_set(&lock, 1): the old value and the new one.
abbrev pub test_and_set : ℕ → ℕ × ℕ
test_and_set lock = (lock, 1)

-- A call of lockShared, a round of its loop, and unlockShared.
abbrev pub advance : Phase → ℕ → Phase × ℕ
advance outside lock = (waiting, lock)
advance waiting lock =
    let (old, new) = test_and_set lock in (if old == 0 then inside else waiting, new)
advance inside lock = (outside, 0)

-- The handler returns behind its unlockShared.
abbrev pub until_return : Phase → Option Phase
until_return outside = none
until_return phase = some phase

abbrev pub main_runs : ℕ → Processes → Processes
main_runs i s =
    let (phase, lock) = advance (s.main i) s.lock in
    record s { lock = lock; main = λ j. if j == i then phase else s.main j }

abbrev pub handler_runs : ℕ → Phase → Processes → Processes
handler_runs i phase s =
    let (next, lock) = advance phase s.lock in
    record s { lock = lock; handler = λ j. if j == i then until_return next else s.handler j }

-- SIGUSR1: flushPendingMessages calls lockShared.
abbrev pub interrupted : ℕ → Processes → Processes
interrupted i s = record s { handler = λ j. if j == i then some waiting else s.handler j }

-- A signal that ends the process where it stands, such as SIGPIPE, which a write to a closed socket
-- raises. Nobody releases the lock for it.
abbrev pub killed : ℕ → Processes → Processes
killed i s = record s { ended = λ j. if j == i then true else s.ended j }

-- A process that its handler interrupts does nothing else until the handler returns, and is not
-- interrupted again.
pub data Step (s : Processes) : Processes → Type 0 where
  main_step : (i : ℕ) → s.ended i ≡ false → s.handler i ≡ none → Step s (main_runs i s)
  handler_step :
      (i : ℕ) (phase : Phase)
      → s.ended i ≡ false
      → s.handler i ≡ some phase
      → Step s (handler_runs i phase s)
  signal : (i : ℕ) → s.ended i ≡ false → s.handler i ≡ none → Step s (interrupted i s)
  dies : (i : ℕ) → s.ended i ≡ false → Step s (killed i s)

pub data Steps (s : Processes) : Processes → Type 0 where
  stay : Steps s s
  after : {t u : Processes} → Steps s t → Step t u → Steps s u
