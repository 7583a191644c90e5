-- ===== src/ShellCore/Reap/Answers.antt =====
-- What the answers of `waitpid` have to do with a round of `graceReap`.
use network_programming.Base.{
  ℕ, ◌+◌, ◌≤◌, Bool, true, false, List, [], ◌∷◌, Option, none, some, if◌then◌else◌, ◌≡◌, arith,
  refl, ap, ◌⊎◌, inl, inr,
}
use network_programming.ShellCore.Reap.{
  Answer, ended, runs, refused, Polled, Round, with_process, polled, poll_round, unpolled,
}

abbrev pub pids_of : List Polled → List ℕ
pids_of [] = []
pids_of (p ∷ ps) = p.pid ∷ pids_of ps

-- The calls of `waitpid` are numbered from `start` on.
module _ (waitpid : ℕ → ℕ → Answer) (start : ℕ) where
  -- Of each process that is marked as done a call has said that it has ended.
  abbrev pub WereEnded : List Polled → Type 0
  WereEnded [] = Unit
  WereEnded (p ∷ ps) =
      (p.is_done ≡ true → (k : ℕ) × (start ≤ k) × (waitpid k p.pid ≡ ended)) × WereEnded ps

  -- Call after call from number `k` on has said of each other process that it still runs.
  abbrev pub StillRun : List Polled → ℕ → Type 0
  StillRun [] k = Unit
  StillRun (p ∷ ps) k =
      (p.is_done ≡ false → waitpid k p.pid ≡ runs) × StillRun ps (if p.is_done then k else k + 1)

  -- A call for one of the processes was refused.
  abbrev pub WasRefused : List ℕ → Type 0
  WasRefused [] = ⊥
  WasRefused (pid ∷ pids) = ((k : ℕ) × (start ≤ k) × (waitpid k pid ≡ refused)) ⊎ WasRefused pids

  abbrev pub Answers : List Polled → ℕ → Option Round → Type 0
  Answers ps k none = WasRefused (pids_of ps)
  Answers ps k (some r) =
      (start ≤ r.calls)
      × (pids_of r.processes ≡ pids_of ps)
      × WereEnded r.processes
      × (r.made_progress ≡ false → StillRun ps k)

  passed-Answers :
      (p : Polled) (ps : List Polled) (k : ℕ) (rest : Option Round)
      → p.is_done ≡ true
      → (p.is_done ≡ true → (i : ℕ) × (start ≤ i) × (waitpid i p.pid ≡ ended))
      → Answers ps k rest
      → Answers (p ∷ ps) k (with_process waitpid p rest)
  passed-Answers p ps k none e known h = inr h
  passed-Answers p ps k (some r) e known h =
      (h.0, ap (◌∷◌ p.pid) h.1, (known, h.2), λ f. (λ d. cc, rw (e) (h.3 f)))

  polled-Answers :
      (p : Polled) (ps : List Polled) (k : ℕ) (a : Answer) (rest : Option Round)
      → p.is_done ≡ false
      → start ≤ k
      → waitpid k p.pid ≡ a
      → Answers ps (k + 1) rest
      → Answers (p ∷ ps) k (polled waitpid p a rest)
  polled-Answers p ps k ended none e s w h = inr h
  polled-Answers p ps k ended (some r) e s w h =
      (h.0, ap (◌∷◌ p.pid) h.1, (λ d. (k, s, w), h.2), λ f. cc)
  polled-Answers p ps k runs none e s w h = inr h
  polled-Answers p ps k runs (some r) e s w h =
      (h.0, ap (◌∷◌ p.pid) h.1, (λ d. cc, h.2), λ f. (λ d. w, rw (e) (h.3 f)))
  polled-Answers p ps k refused rest e s w h = inl (k, s, w)

  pub poll_round-Answers :
      (ps : List Polled) (k : ℕ) → start ≤ k → WereEnded ps → Answers ps k (poll_round waitpid ps k)
  unfolding poll_round
  poll_round-Answers [] k s h = (s, refl, tt, λ f. tt)
  poll_round-Answers (p ∷ ps) k s h =
      go p.is_done refl (poll_round-Answers ps k s h.1)
        (poll_round-Answers ps (k + 1) (omega arith) h.1)
    where
      go :
          (done : Bool)
          → p.is_done ≡ done
          → Answers ps k (poll_round waitpid ps k)
          → Answers ps (k + 1) (poll_round waitpid ps (k + 1))
          → Answers (p ∷ ps) k (
              if done
              then with_process waitpid p (poll_round waitpid ps k)
              else polled waitpid p (waitpid k p.pid) (poll_round waitpid ps (k + 1)))
      go true e passed asked = passed-Answers p ps k _ e h.0 passed
      go false e passed asked = polled-Answers p ps k (waitpid k p.pid) _ e s refl asked

pub pids_of-unpolled :
    (waitpid : ℕ → ℕ → Answer) (pids : List ℕ) → pids_of (unpolled waitpid pids) ≡ pids
unfolding unpolled
pids_of-unpolled waitpid [] = refl
pids_of-unpolled waitpid (pid ∷ pids) = ap (◌∷◌ pid) (pids_of-unpolled waitpid pids)

pub WereEnded-unpolled :
    (waitpid : ℕ → ℕ → Answer) (start : ℕ) (pids : List ℕ)
    → WereEnded waitpid start (unpolled waitpid pids)
unfolding unpolled
WereEnded-unpolled waitpid start [] = tt
WereEnded-unpolled waitpid start (pid ∷ pids) = (λ d. cc, WereEnded-unpolled waitpid start pids)
