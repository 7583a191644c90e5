-- ===== src/ShellCore/Reap.antt =====
-- shell_core.h: `graceReap`, which polls the processes in the background until a round finds no
-- process that has ended.
pub mod Answers
pub mod Rounds
use network_programming.Base.{
  ℕ, zero, suc, ◌+◌, Bool, true, false, not, ◌||◌, List, [], ◌∷◌, Option, none, some, length,
  if◌then◌else◌, is_empty,
}

-- What waitpid(pid, &status, WNOHANG) finds: an ended process or none of that number, a process that
-- still runs or an interrupt, or another error.
pub data Answer : Type 0 where
  ended runs refused : Answer

-- A process and its entry of `done`.
pub record Polled : Type 0 where
  pub pid : ℕ
  pub is_done : Bool

-- A round: what is left, whether it made progress, and the number of calls so far.
pub record Round : Type 0 where
  pub processes : List Polled
  pub made_progress : Bool
  pub calls : ℕ

pub data Reaped : Type 0 where
  finished : List Polled → Reaped
  -- std::exit(1)
  exits : Reaped
  out_of_fuel : Reaped

module _ (waitpid : ℕ → ℕ → Answer) where
  abbrev with_process : Polled → Option Round → Option Round
  with_process p none = none
  with_process p (some r) = some (record r { processes = p ∷ r.processes })

  abbrev with_progress : Option Round → Option Round
  with_progress none = none
  with_progress (some r) = some (record r { made_progress = true })

  abbrev polled : Polled → Answer → Option Round → Option Round
  polled p ended rest = with_progress (with_process (record p { is_done = true }) rest)
  polled p runs rest = with_process p rest
  polled p refused rest = none

  -- One round; `none` is the exit.
  unfoldable pub poll_round : List Polled → ℕ → Option Round
  poll_round [] calls = some (record { processes = []; made_progress = false; calls = calls })
  poll_round (p ∷ ps) calls =
      let passed = with_process p (poll_round ps calls) in
      let asked = polled p (waitpid calls p.pid) (poll_round ps (calls + 1)) in
      if p.is_done then passed else asked

  abbrev after_round : (List Polled → ℕ → Reaped) → Option Round → Reaped
  after_round next none = exits
  after_round next (some r) =
      if r.made_progress then next r.processes r.calls else finished r.processes

  -- The rounds, with fuel.
  unfoldable pub poll_rounds : ℕ → List Polled → ℕ → Reaped
  unfolding poll_round
  poll_rounds zero ps calls = out_of_fuel
  poll_rounds (suc fuel) ps calls = after_round (poll_rounds fuel) (poll_round ps calls)

  pub unpolled : List ℕ → List Polled
  unpolled [] = []
  unpolled (pid ∷ pids) = record { pid = pid; is_done = false } ∷ unpolled pids

  -- Each round but the last ends a process, so there is one round more than processes at most.
  unfoldable pub grace_reap : List ℕ → ℕ → Reaped
  unfolding unpolled poll_rounds
  grace_reap pids calls =
      if is_empty pids then finished [] else poll_rounds (suc (length pids)) (unpolled pids) calls
