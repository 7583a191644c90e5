-- ===== src/Multi/Process.antt =====
-- One process of np_multi_proc.cpp, which serves one client. Between two of its sections the other
-- processes run: `others k` is what they have made of the shared memory when the process enters its
-- k-th section. What its own signal handler does in between is part of that, but for what it writes.
pub mod Kept
pub mod Owns
use network_programming.Base.{
  ℕ, suc, ◌+◌, Bool, true, false, List, [], ◌∷◌, ◌++◌, Option, none, some, Text,
}
use network_programming.Multi.Shared.{Shared}
use network_programming.ShellCore.Os.{Os, System, close_fd, open_for_writing}
use network_programming.ShellCore.State.{ShellState}

-- What the outside sees of the process.
pub data Event : Type 0 where
  wrote : Text → Event
  signalled : ℕ → Event
  unlinked : Text → Event
  made_fifo : Text → Event

-- `left` is the shared memory as the process left it, section by section.
pub record Run : Type 0 where
  pub shared : Shared
  pub sections : ℕ
  pub left : List Shared
  pub shell : ShellState
  pub os : Os
  pub trace : List Event

-- The outside of a process: the other processes, the answers of the system, and whether `mkfifo` gives
-- a FIFO, or finds one, at the k-th of the process's calls.
pub record World : Type 0 where
  pub others : ℕ → Shared → Shared
  pub system : System
  pub mkfifo : ℕ → Text → Bool

-- `gone` is the end of the process, by an exception that nothing catches or by `exit`.
pub data Outcome (A : Type 0) : Type 0 where
  running : A → Run → Outcome A
  gone : Run → Outcome A

abbrev pub Process : Type 0 → Type 0
Process A = World → Run → Outcome A

abbrev pub run_of : {A : Type 0} → Outcome A → Run
run_of (running a run) = run
run_of (gone run) = run

abbrev pub proceed : {A B : Type 0} → (A → Process B) → World → Outcome A → Outcome B
proceed next world (gone run) = gone run
proceed next world (running a run) = next a world run

infixl 5 ◌>>=◌ ◌>>◌
unfoldable pub ◌>>=◌ : {A B : Type 0} → Process A → (A → Process B) → Process B
◌>>=◌ first next world run = proceed next world (first world run)

unfoldable pub ◌>>◌ : {B : Type 0} → Process (Unit {0}) → Process B → Process B
◌>>◌ first next world run = proceed (λ _. next) world (first world run)

unfoldable pub return : {A : Type 0} → A → Process A
return a world run = running a run

unfoldable pub skip : Process (Unit {0})
skip world run = running tt run

unfoldable pub from_option : {A : Type 0} → Option A → Process A
from_option none world run = gone run
from_option (some a) world run = running a run

-- lockShared(); …; unlockShared();
unfoldable pub locked : {A : Type 0} → (Shared → A × Shared) → Process A
locked section world run =
    let (result, shared) = section (world.others run.sections run.shared) in
    running result
      (record run { shared = shared; sections = run.sections + 1; left = run.left ++ shared ∷ [] })

unfoldable pub event : Event → Process (Unit {0})
event e world run = running tt (record run { trace = run.trace ++ e ∷ [] })

-- A call that works on the descriptors.
unfoldable pub with_os : {A : Type 0} → (System → Os → A × Os) → Process A
with_os call world run =
    let (result, os) = call world.system run.os in running result (record run { os = os })

unfoldable pub open_file : Text → Process (Option ℕ)
open_file path = with_os (λ system os. open_for_writing system path os)

unfoldable pub close : Option ℕ → Process (Unit {0})
close fd = with_os (λ system os. (tt, close_fd fd os))

-- mkfifo(path, 0666) >= 0 || errno == EEXIST
unfoldable pub mkfifo : Text → Process Bool
mkfifo path world run =
    running (world.mkfifo run.os.calls path)
      (record run { trace = run.trace ++ made_fifo path ∷ [] })
