-- ===== src/ShellCore/Execute/Attach.antt =====
-- What the shell has open while it starts the commands of a line, and `attachIncomingNumberedPipe`.
use network_programming.Base.{
  ℕ, ◌+◌, true, [], ◌∷◌, Option, none, some, ◌≡◌, arith, refl, Bool-cases, inl, inr,
}
use network_programming.ShellCore.Os.Balance.{one, ends, Balanced, close_fd-Balanced}
use network_programming.ShellCore.Os.{PipeFd}
use network_programming.ShellCore.State.{Pipes, pipe_at, without}
use network_programming.ShellCore.Execute.{Running, attach, attach_incoming_numbered_pipe, same_fd}

abbrev pub table : ℕ → Pipes → ℕ
table x [] = 0
table x ((_, p) ∷ ps) = ends x p + table x ps

-- The descriptors of others, the input, and the ends of the numbered pipes.
abbrev pub account : (ℕ → ℕ) → Running → ℕ → ℕ
account base r x = base x + one x r.in_fd + table x r.shell.numbered_pipes

abbrev pub Accounted : (ℕ → ℕ) → Running → Type 0
Accounted base r = Balanced (account base r) r.os

pub table-without :
    (segment x : ℕ) (ps : Pipes) (p : PipeFd)
    → pipe_at segment ps ≡ some p
    → table x ps ≡ ends x p + table x (without segment ps)
unfolding pipe_at without
table-without segment x [] p h = cc
table-without segment x ((s, q) ∷ ps) p h = ground (arith, table-without segment x ps p)

pub without-none : (segment : ℕ) (ps : Pipes) → pipe_at segment ps ≡ none → without segment ps ≡ ps
unfolding pipe_at without
without-none segment [] h = refl
without-none segment ((s, q) ∷ ps) h = ground (arith, without-none segment ps)

same_fd-one : (fd : ℕ) (o : Option ℕ) → same_fd (some fd) o ≡ true → one fd o ≡ 1
same_fd-one fd none h = cc
same_fd-one fd (some other) h = ground arith

module _ (base : ℕ → ℕ) where
  attach-some-Accounted :
      (p : PipeFd) (segment : ℕ) (r : Running)
      → pipe_at segment r.shell.numbered_pipes ≡ some p
      → (in_fd : Option ℕ) → Accounted base (record r { in_fd = in_fd })
      → Accounted base (attach (some p) segment (record r { in_fd = in_fd }))
  attach-some-Accounted p segment r e none a =
      close_fd-Balanced _ p.write_fd
        (λ x. omega (arith, table-without segment x r.shell.numbered_pipes p e)) a
  attach-some-Accounted p segment r e (some fd) a =
      elim (Bool-cases (same_fd (some fd) p.read_fd)) [
        | inl same ↦ absurd (
            ground (
              arith,
              same_fd-one fd p.read_fd,
              a.single fd,
              table-without segment fd r.shell.numbered_pipes p e,
            ))
        | inr other ↦ rw (other) (
            close_fd-Balanced _ p.write_fd (λ x. refl)
              (close_fd-Balanced
                (λ x.
                  one x p.write_fd
                  + (base x + one x (some fd) + table x (without segment r.shell.numbered_pipes)))
                p.read_fd (λ x. omega (arith, table-without segment x r.shell.numbered_pipes p e))
                a))
      ]

  attach-Accounted :
      (found : Option PipeFd) (segment : ℕ) (r : Running)
      → pipe_at segment r.shell.numbered_pipes ≡ found
      → Accounted base r
      → Accounted base (attach found segment r)
  attach-Accounted none segment r e b = b
  attach-Accounted (some p) segment r e b = attach-some-Accounted p segment r e r.in_fd b

  pub attach_incoming_numbered_pipe-Accounted :
      (segment : ℕ) (r : Running)
      → Accounted base r
      → Accounted base (attach_incoming_numbered_pipe segment r)
  unfolding attach_incoming_numbered_pipe
  attach_incoming_numbered_pipe-Accounted segment r b =
      attach-Accounted (pipe_at segment r.shell.numbered_pipes) segment r refl b
