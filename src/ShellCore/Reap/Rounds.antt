-- ===== src/ShellCore/Reap/Rounds.antt =====
-- The rounds of `graceReap` end.
use network_programming.Base.{
  ℕ, zero, suc, ◌+◌, ◌≤◌, ◌<◌, Bool, true, false, List, [], ◌∷◌, Option, none, some, length,
  if◌then◌else◌, ◌≡◌, arith, refl, subst, sym, ap, ◌∙◌,
}
use network_programming.ShellCore.Reap.Answers.{
  WasRefused, WereEnded, StillRun, Answers, pids_of, poll_round-Answers, pids_of-unpolled,
  WereEnded-unpolled,
}
use network_programming.ShellCore.Reap.{
  Answer, ended, runs, refused, Polled, Round, Reaped, finished, exits, out_of_fuel, with_process,
  polled, poll_round, after_round, poll_rounds, unpolled, grace_reap,
}

-- The processes not known to have ended.
abbrev pub open_count : List Polled → ℕ
open_count [] = 0
open_count (p ∷ ps) = (if p.is_done then 0 else 1) + open_count ps

-- A round ends a process where it makes progress, and changes nothing else.
abbrev Falls : List Polled → Option Round → Type 0
Falls ps none = Unit
Falls ps (some r) =
    (open_count r.processes + (if r.made_progress then 1 else 0) ≤ open_count ps)
    × (r.made_progress ≡ false → r.processes ≡ ps)

module _ (waitpid : ℕ → ℕ → Answer) where
  polled-Falls :
      (p : Polled) (ps : List Polled) (a : Answer) (rest : Option Round)
      → p.is_done ≡ false
      → Falls ps rest
      → Falls (p ∷ ps) (polled waitpid p a rest)
  polled-Falls p ps ended none e h = tt
  polled-Falls p ps ended (some r) e h = (ground (arith, h.0), λ f. cc)
  polled-Falls p ps runs none e h = tt
  polled-Falls p ps runs (some r) e h = (omega (arith, h.0), λ f. ap (◌∷◌ p) (h.1 f))
  polled-Falls p ps refused rest e h = tt

  with_process-Falls :
      (p : Polled) (ps : List Polled) (rest : Option Round)
      → Falls ps rest
      → Falls (p ∷ ps) (with_process waitpid p rest)
  with_process-Falls p ps none h = tt
  with_process-Falls p ps (some r) h = (omega (arith, h.0), λ f. ap (◌∷◌ p) (h.1 f))

  asked-Falls :
      (p : Polled) (ps : List Polled) (a : Answer) (passed asked : Option Round) (done : Bool)
      → p.is_done ≡ done
      → Falls ps passed
      → Falls ps asked
      → Falls (p ∷ ps) (if done then with_process waitpid p passed else polled waitpid p a asked)
  asked-Falls p ps a passed asked true e h k = with_process-Falls p ps passed h
  asked-Falls p ps a passed asked false e h k = polled-Falls p ps a asked e k

  poll_round-Falls : (ps : List Polled) (calls : ℕ) → Falls ps (poll_round waitpid ps calls)
  unfolding poll_round
  poll_round-Falls [] calls = (omega arith, λ f. refl)
  poll_round-Falls (p ∷ ps) calls =
      asked-Falls p ps (waitpid calls p.pid) (poll_round waitpid ps calls)
        (poll_round waitpid ps (calls + 1)) p.is_done refl (poll_round-Falls ps calls)
        (poll_round-Falls ps (calls + 1))

  module _ (start : ℕ) (pids : List ℕ) where
    -- What the end of the polling says of the processes.
    abbrev pub Ends : Reaped → Type 0
    Ends out_of_fuel = ⊥
    Ends exits = WasRefused waitpid start pids
    Ends (finished left) =
        (pids_of left ≡ pids)
        × WereEnded waitpid start left
        × (k : ℕ) × (start ≤ k)
        × StillRun waitpid start left k

    -- What holds at the start of each round.
    abbrev Polling : List Polled → ℕ → ℕ → Type 0
    Polling ps calls fuel =
        (open_count ps < fuel) × (start ≤ calls) × (pids_of ps ≡ pids) × WereEnded waitpid start ps

    after_round-Ends :
        (ps : List Polled) (calls fuel : ℕ) (r : Round) (progress : Bool)
        (next : List Polled → ℕ → Reaped)
        → r.made_progress ≡ progress
        → Falls ps (some r)
        → Answers waitpid start ps calls (some r)
        → Polling ps calls (suc fuel)
        → ((left : List Polled) (k : ℕ) → Polling left k fuel → Ends (next left k))
        → Ends (if progress then next r.processes r.calls else finished r.processes)
    after_round-Ends ps calls fuel r true next p f a h k =
        k r.processes r.calls (ground (arith, f.0, p), a.0, a.1 ∙ h.2, a.2)
    after_round-Ends ps calls fuel r false next p f a h k = (
      a.1 ∙ h.2,
      a.2,
      calls,
      h.1,
      subst (λ left. StillRun waitpid start left calls) (sym (f.1 p)) (a.3 p),
    )

    ends_of_round :
        (ps : List Polled) (calls fuel : ℕ) (o : Option Round) (next : List Polled → ℕ → Reaped)
        → Falls ps o
        → Answers waitpid start ps calls o
        → Polling ps calls (suc fuel)
        → ((left : List Polled) (k : ℕ) → Polling left k fuel → Ends (next left k))
        → Ends (after_round waitpid next o)
    ends_of_round ps calls fuel none next f a h k = subst (WasRefused waitpid start) h.2 a
    ends_of_round ps calls fuel (some r) next f a h k =
        after_round-Ends ps calls fuel r r.made_progress next refl f a h k

    poll_rounds-Ends :
        (fuel : ℕ) (ps : List Polled) (calls : ℕ)
        → Polling ps calls fuel
        → Ends (poll_rounds waitpid fuel ps calls)
    unfolding poll_rounds
    poll_rounds-Ends zero ps calls h = absurd (omega (arith, h.0))
    poll_rounds-Ends (suc fuel) ps calls h =
        ends_of_round ps calls fuel (poll_round waitpid ps calls) (poll_rounds waitpid fuel)
          (poll_round-Falls ps calls) (poll_round-Answers waitpid start ps calls h.1 h.3) h
          (poll_rounds-Ends fuel)

  open_count-unpolled : (pids : List ℕ) → open_count (unpolled waitpid pids) ≡ length pids
  unfolding unpolled
  open_count-unpolled [] = refl
  open_count-unpolled (pid ∷ pids) = omega (arith, open_count-unpolled pids)

  -- Whatever `waitpid` answers, polling ends after one round more than there are processes at most.
  -- Either the shell exits, and `waitpid` refused one of the processes; or exactly these processes are
  -- left, in order, of each one marked as done `waitpid` has said that it has ended, and in a last
  -- round, call after call, of each other one that it still runs.
  pub grace_reap-Ends :
      (pids : List ℕ) (calls : ℕ) → Ends calls pids (grace_reap waitpid pids calls)
  unfolding grace_reap
  grace_reap-Ends [] calls = (refl, tt, calls, omega arith, tt)
  grace_reap-Ends (pid ∷ pids) calls =
      poll_rounds-Ends calls (pid ∷ pids) (suc (length (pid ∷ pids)))
        (unpolled waitpid (pid ∷ pids)) calls
        (
          omega (arith, open_count-unpolled (pid ∷ pids)),
          omega arith,
          pids_of-unpolled waitpid (pid ∷ pids),
          WereEnded-unpolled waitpid calls (pid ∷ pids),
        )
