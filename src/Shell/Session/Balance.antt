-- ===== src/Shell/Session/Balance.antt =====
-- Over any input the shell keeps its descriptors.
use network_programming.Base.{
  ℕ, ◌+◌, List, [], ◌∷◌, Option, none, some, Text, trim_cr, ◌≡◌, arith, refl, ◌⊎◌,
}
use network_programming.Shell.Command.{Command}
use network_programming.Shell.Parse.{parse_line}
use network_programming.Shell.Session.{
  Session, Result, goes_on, stops, Ending, input_over, exited, died,
}
use network_programming.ShellCore.Execute.Attach.{table, table-without}
use network_programming.ShellCore.Line
use network_programming.ShellCore.Os.Balance.{Balanced, close_pipe-Balanced, IsPosix, RefusesPipe}
use network_programming.ShellCore.Os.{Os, System, PipeFd}
use network_programming.ShellCore.State.{ShellState, discard_incoming_pipe, discard, pipe_at}

-- The descriptors of others and the ends of the numbered pipes are open, and nothing else.
abbrev pub Keeps : (ℕ → ℕ) → ShellState → Os → Type 0
Keeps base shell os = Balanced (λ x. base x + table x shell.numbered_pipes) os

pub discard_incoming_pipe-Keeps :
    (base : ℕ → ℕ) (segment : ℕ) (shell : ShellState) (os : Os)
    → Keeps base shell os
    → let (shell', os') = discard_incoming_pipe segment shell os in Keeps base shell' os'
unfolding discard_incoming_pipe
discard_incoming_pipe-Keeps base segment shell os b = go (pipe_at segment shell.numbered_pipes) refl
  where
    go :
        (found : Option PipeFd)
        → pipe_at segment shell.numbered_pipes ≡ found
        → Keeps base (discard found segment shell os).0 (discard found segment shell os).1
    go none e = b
    go (some p) e =
        close_pipe-Balanced _ p
          (λ x. omega (arith, table-without segment x shell.numbered_pipes p e)) b

-- A change of the environment or of the output.
abbrev SameDescriptors : Session → Session → Type 0
SameDescriptors s t = (t.shell.numbered_pipes ≡ s.shell.numbered_pipes) × (t.os ≡ s.os)

module _ (base : ℕ → ℕ) where
  abbrev pub KeepsSession : Session → Type 0
  KeepsSession s = Keeps base s.shell s.os

  module _ {system : System} (posix : IsPosix system) where
    -- One of the lines has a number that std::stoi does not read.
    abbrev pub HasOverlong : List Text → Type 0
    HasOverlong [] = ⊥
    HasOverlong (line ∷ lines) = (parse_line (trim_cr line) ≡ none) ⊎ HasOverlong lines

    -- Why a shell may die on these lines: the system refused a pipe, or std::stoi an overlong number.
    abbrev pub Dies : List Text → Type 0
    Dies lines = RefusesPipe system ⊎ HasOverlong lines

    abbrev pub EndsKept : List Text → Ending → Session → Type 0
    EndsKept lines died s = Dies lines
    EndsKept lines input_over s = KeepsSession s
    EndsKept lines exited s = KeepsSession s

    abbrev ResultKeeps : List Text → Result → Type 0
    ResultKeeps lines (goes_on s) = KeepsSession s
    ResultKeeps lines (stops ending s) = EndsKept lines ending s
