-- ===== src/Multi/Process/Owns.antt =====
-- Which descriptors a process has open while it runs the code of np_multi_proc.cpp.
use network_programming.Base.{ℕ, ◌+◌, Bool, if◌then◌else◌, if_both, Option, Text, ◌≡◌, arith}
use network_programming.Multi.Process.{
  Event, Run, World, Outcome, running, gone, Process, proceed, locked, with_os, event, mkfifo,
  open_file, close, skip, return, ◌>>=◌, ◌>>◌,
}
use network_programming.Multi.Shared.{Shared}
use network_programming.ShellCore.Execute.Attach.{table}
use network_programming.ShellCore.Os.Balance.{
  one, Balanced, Balanced-account, close_fd-Balanced, open_for_writing-Balanced, IsPosix,
  RefusesPipe,
}
use network_programming.ShellCore.Os.{System}

-- The process has what `account` says and the ends of its numbered pipes, and nothing else.
pub record Owns (account : ℕ → ℕ) (run : Run) : Type 0 where
  pub balanced : Balanced (λ x. account x + table x run.shell.numbered_pipes) run.os

-- A part of a process that runs to `After`, or the process ends since the system refused a pipe.
abbrev pub Ends : {A : Type 0} → System → (A → Run → Type 0) → Outcome A → Type 0
Ends system After (running a run) = After a run
Ends system After (gone run) = RefusesPipe system

pub record Runs {A : Type 0} (world : World) (Before : Run → Type 0) (After : A → Run → Type 0)
    (part : Process A) : Type 0 where
  pub ends : (run : Run) → Before run → Ends world.system After (part world run)

pub Owns-account :
    {f : ℕ → ℕ} (g : ℕ → ℕ) (run : Run) → ((x : ℕ) → f x ≡ g x) → Owns f run → Owns g run
Owns-account g run same b = record {
  balanced = Balanced-account _ (λ x. omega (arith, same x)) b.balanced;
}

module _ {world : World} where
  proceed-Ends :
      {A B : Type 0} {Middle : A → Run → Type 0} (After : B → Run → Type 0) (next : A → Process B)
      (o : Outcome A)
      → Ends world.system Middle o
      → ((a : A) → Runs world (Middle a) After (next a))
      → Ends world.system After (proceed next world o)
  proceed-Ends After next (running a run) h later = (later a).ends run h
  proceed-Ends After next (gone run) h later = h

  pub bind-Runs :
      {A B : Type 0} {Before : Run → Type 0} {Middle : A → Run → Type 0} {After : B → Run → Type 0}
      {part : Process A} {next : A → Process B}
      → Runs world Before Middle part
      → ((a : A) → Runs world (Middle a) After (next a))
      → Runs world Before After (part >>= next)
  unfolding ◌>>=◌
  bind-Runs {After} {part} {next} first later = record {
    ends = λ run h. proceed-Ends After next (part world run) (first.ends run h) later;
  }

  pub then-Runs :
      {B : Type 0} {Before Middle : Run → Type 0} {After : B → Run → Type 0}
      {part : Process (Unit {0})} {next : Process B}
      → Runs world Before (λ _. Middle) part
      → Runs world Middle After next
      → Runs world Before After (part >> next)
  unfolding ◌>>◌
  then-Runs {After} {part} {next} first later = record {
    ends = λ run h. proceed-Ends After (λ _. next) (part world run) (first.ends run h) (λ _. later);
  }

  pub either-Runs :
      {A : Type 0} {Before : Run → Type 0} {After : A → Run → Type 0} (b : Bool)
      {one_part other : Process A}
      → Runs world Before After one_part
      → Runs world Before After other
      → Runs world Before After (if b then one_part else other)
  either-Runs {Before} {After} b h k = if_both (λ p. Runs world Before After p) b h k

  pub return-Runs :
      {A : Type 0} {Before : Run → Type 0} {After : A → Run → Type 0} (a : A)
      → ((run : Run) → Before run → After a run)
      → Runs world Before After (return a)
  unfolding return
  return-Runs a h = record { ends = h }

  module _ {f : ℕ → ℕ} where
    pub skip-Owns : Runs world (Owns f) (λ _. Owns f) skip
    unfolding skip
    skip-Owns = record { ends = λ run b. record { balanced = b.balanced } }

    pub event-Owns : (e : Event) → Runs world (Owns f) (λ _. Owns f) (event e)
    unfolding event
    event-Owns e = record { ends = λ run b. record { balanced = b.balanced } }

    pub locked-Owns :
        {A : Type 0} (section : Shared → A × Shared)
        → Runs world (Owns f) (λ _. Owns f) (locked section)
    unfolding locked
    locked-Owns section = record { ends = λ run b. record { balanced = b.balanced } }

    pub mkfifo-Owns : (path : Text) → Runs world (Owns f) (λ _. Owns f) (mkfifo path)
    unfolding mkfifo
    mkfifo-Owns path = record { ends = λ run b. record { balanced = b.balanced } }

    pub close-Owns :
        (g : ℕ → ℕ) (fd : Option ℕ)
        → ((x : ℕ) → f x ≡ one x fd + g x)
        → Runs world (Owns f) (λ _. Owns g) (close fd)
    unfolding close with_os
    close-Owns g fd same = record {
      ends = λ run b. record {
        balanced = close_fd-Balanced _ fd (λ x. omega (arith, same x)) b.balanced;
      };
    }

    pub open_file-Owns :
        IsPosix world.system
        → (path : Text) → Runs world (Owns f) (λ fd. Owns (λ x. f x + one x fd)) (open_file path)
    unfolding open_file with_os
    open_file-Owns posix path = record {
      ends = λ run b. record {
        balanced =
            Balanced-account _ (λ x. omega arith)
              (open_for_writing-Balanced posix path run.os b.balanced);
      };
    }
