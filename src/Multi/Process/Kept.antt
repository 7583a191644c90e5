-- ===== src/Multi/Process/Kept.antt =====
-- What a process leaves in the shared memory at the end of each section, whatever the others do.
use network_programming.Base.{
  ℕ, Bool, if_both, if◌then◌else◌, List, [], ◌∷◌, ◌++◌, Option, none, some, Text,
}
use network_programming.Multi.Process.{
  Event, Run, World, Outcome, running, gone, Process, proceed, locked, from_option, with_os, event,
  mkfifo, skip, return, ◌>>=◌, ◌>>◌,
}
use network_programming.Multi.Section.Invariant.{IsShared}
use network_programming.Multi.Shared.{Shared, enqueue}
use network_programming.ShellCore.Os.{Os, System}

abbrev pub AllShared : List Shared → Type 0
AllShared [] = Unit
AllShared (s ∷ states) = IsShared s × AllShared states

pub AllShared-append :
    (states : List Shared) (s : Shared)
    → AllShared states
    → IsShared s
    → AllShared (states ++ s ∷ [])
AllShared-append [] s all h = (h, tt)
AllShared-append (t ∷ states) s (first, rest) h = (first, AllShared-append states s rest h)

-- A condition on the shared memory that the other processes keep, and a message keeps.
pub record IsKept (world : World) (Good : Shared → Type 0) : Type 0 where
  pub sound : (s : Shared) → Good s → IsShared s
  pub others : (k : ℕ) (s : Shared) → Good s → Good (world.others k s)
  pub posting :
      (target : ℕ) (message : Text) (s : Shared) → Good s → Good (enqueue target message s).1

pub record Ready (Good : Shared → Type 0) (run : Run) : Type 0 where
  pub left : AllShared run.left
  pub shared : Good run.shared

abbrev pub Kept : {A : Type 0} → (Shared → Type 0) → Outcome A → Type 0
Kept Good (running a run) = Ready Good run
Kept Good (gone run) = AllShared run.left

-- A part of a process: from `First` it ends with `Next`, unless the process ends.
pub record Keeps {A : Type 0} (world : World) (First Next : Shared → Type 0) (part : Process A)
    : Type 0 where
  pub kept : (run : Run) → Ready First run → Kept Next (part world run)

module _ {world : World} where
  proceed-Kept :
      {A B : Type 0} {Middle : Shared → Type 0} (Next : Shared → Type 0) (next : A → Process B)
      (o : Outcome A)
      → Kept Middle o
      → ((a : A) → Keeps world Middle Next (next a))
      → Kept Next (proceed next world o)
  proceed-Kept Next next (running a run) ready later = (later a).kept run ready
  proceed-Kept Next next (gone run) left later = left

  pub bind :
      {A B : Type 0} {First Middle Next : Shared → Type 0} {part : Process A} {next : A → Process B}
      → Keeps world First Middle part
      → ((a : A) → Keeps world Middle Next (next a))
      → Keeps world First Next (part >>= next)
  unfolding ◌>>=◌
  bind {Next} {part} {next} first later = record {
    kept = λ run ready. proceed-Kept Next next (part world run) (first.kept run ready) later;
  }

  pub then_do :
      {B : Type 0} {First Middle Next : Shared → Type 0} {part : Process (Unit {0})}
      {next : Process B}
      → Keeps world First Middle part
      → Keeps world Middle Next next
      → Keeps world First Next (part >> next)
  unfolding ◌>>◌
  then_do {Next} {part} {next} first later = record {
    kept = λ run ready.
        proceed-Kept Next (λ _. next) (part world run) (first.kept run ready) (λ _. later);
  }

  module _ {Good : Shared → Type 0} where
    pub either :
        {A : Type 0} (b : Bool) {one other : Process A}
        → Keeps world Good Good one
        → Keeps world Good Good other
        → Keeps world Good Good (if b then one else other)
    either b h k = if_both (λ p. Keeps world Good Good p) b h k

    pub skip-Keeps : Keeps world Good Good skip
    unfolding skip
    skip-Keeps = record { kept = λ run ready. ready }

    pub return-Keeps : {A : Type 0} (a : A) → Keeps world Good Good (return a)
    unfolding return
    return-Keeps a = record { kept = λ run ready. ready }

    pub event-Keeps : (e : Event) → Keeps world Good Good (event e)
    unfolding event
    event-Keeps e = record {
      kept = λ run ready. record { left = ready.left; shared = ready.shared };
    }

    pub with_os-Keeps :
        {A : Type 0} (call : System → Os → A × Os) → Keeps world Good Good (with_os call)
    unfolding with_os
    with_os-Keeps call = record {
      kept = λ run ready. record { left = ready.left; shared = ready.shared };
    }

    pub mkfifo-Keeps : (path : Text) → Keeps world Good Good (mkfifo path)
    unfolding mkfifo
    mkfifo-Keeps path = record {
      kept = λ run ready. record { left = ready.left; shared = ready.shared };
    }

    pub from_option-Keeps : {A : Type 0} (o : Option A) → Keeps world Good Good (from_option o)
    unfolding from_option
    from_option-Keeps none = record { kept = λ run ready. ready.left }
    from_option-Keeps (some a) = record { kept = λ run ready. ready }

    pub section-Keeps :
        {A : Type 0} {Next : Shared → Type 0} (section : Shared → A × Shared)
        → IsKept world Good
        → ((s : Shared) → Next s → IsShared s)
        → ((s : Shared) → Good s → Next (section s).1)
        → Keeps world Good Next (locked section)
    unfolding locked
    section-Keeps section good sound keeps = record {
      kept = λ run ready.
          let after = keeps _ (good.others run.sections run.shared ready.shared) in
          record { left = AllShared-append run.left _ ready.left (sound _ after); shared = after };
    }

    -- A section that only reads.
    pub reading-Keeps :
        {A : Type 0} (read : Shared → A)
        → IsKept world Good
        → Keeps world Good Good (locked (λ s. (read s, s)))
    reading-Keeps read good = section-Keeps (λ s. (read s, s)) good good.sound (λ s h. h)
