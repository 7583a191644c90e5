-- ===== src/ShellCore/Execute/Balance.antt =====
-- The helpers of `executeExternalCommands` keep every descriptor accounted for.
use network_programming.Base.{
  ℕ, ◌+◌, Bool, true, false, not, ◌&&◌, Option, none, some, Text, if◌then◌else◌, ◌≡◌, arith, refl,
  ap, Bool-cases, inl, inr,
}
use network_programming.Shell.Command.{
  Command, NextType, none_next, ordinary_pipe, number_pipe_out, number_pipe_both,
}
use network_programming.ShellCore.Os.Balance.{
  one, ends, Balanced, Balanced-account, close_fd-Balanced, IsPosix, RefusesPipe, Made,
  create_pipe_or_die-Made, open_for_writing-Balanced,
}
use network_programming.ShellCore.Os.{
  Os, System, PipeFd, close_fd, create_pipe_or_die, open_for_writing,
}
use network_programming.ShellCore.State.{pipe_at, without}
use network_programming.ShellCore.Execute.{
  ExecutionConfig, IoPlan, Running, Prepared, exits, fails, planned, with_redirect, with_ordinary,
  new_target, to_pipe, with_target, with_next, start_plan, take_input, route, prepare_io_plan,
  is_some,
}
use network_programming.ShellCore.Execute.Attach.{
  account, Accounted, table, table-without, without-none,
}

module _ (base : ℕ → ℕ) where
  -- The descriptors of a plan that the shell closes or passes on after the command has started.
  abbrev pub of_plan : IoPlan → ℕ → ℕ
  of_plan plan x =
      one x plan.next_in_fd + one x plan.ordinary_pipe.write_fd + one x plan.redirect_fd

  module _ {system : System} (posix : IsPosix system) where
    abbrev pub Prepares : Prepared → Type 0
    Prepares exits = RefusesPipe system
    Prepares (fails r) = Accounted base r
    Prepares (planned r plan) = Balanced (λ x. account base r x + of_plan plan x) r.os

    with_redirect-Prepares :
        (plan : IoPlan) (name : Text) (r : Running)
        → ((x : ℕ) → of_plan plan x ≡ 0)
        → Accounted base r
        → Prepares (with_redirect plan (open_for_writing system name r.os) r)
    with_redirect-Prepares plan name r idle b =
        go (open_for_writing system name r.os).0 (open_for_writing system name r.os).1
          (open_for_writing-Balanced posix name r.os b)
      where
        go :
            (fd : Option ℕ) (os : Os)
            → Balanced (λ x. one x fd + account base r x) os
            → Prepares (with_redirect plan (fd, os) r)
        go none os a = close_fd-Balanced _ r.in_fd (λ x. omega arith) a
        go (some fd) os a = Balanced-account _ (λ x. omega (arith, idle x)) a

    with_ordinary-Prepares :
        (plan : IoPlan) (r : Running)
        → ((x : ℕ) → of_plan plan x ≡ 0)
        → Accounted base r
        → Prepares (with_ordinary plan (create_pipe_or_die system r.os) r)
    with_ordinary-Prepares plan r idle b =
        go (create_pipe_or_die system r.os) (create_pipe_or_die-Made posix r.os b)
      where
        go :
            (made : Option (PipeFd × Os))
            → Made system (account base r) made
            → Prepares (with_ordinary plan made r)
        go none a = a
        go (some (p, os)) a = Balanced-account _ (λ x. omega (arith, idle x)) a

    to_pipe-of_plan :
        (next : NextType) (plan : IoPlan) (p : PipeFd) (x : ℕ)
        → of_plan (to_pipe next plan p) x ≡ of_plan plan x
    to_pipe-of_plan none_next plan p x = refl
    to_pipe-of_plan ordinary_pipe plan p x = refl
    to_pipe-of_plan number_pipe_out plan p x = refl
    to_pipe-of_plan number_pipe_both plan p x = refl

    new_target-Prepares :
        (target : ℕ) (next : NextType) (plan : IoPlan) (r : Running)
        → ((x : ℕ) → of_plan plan x ≡ 0)
        → ((x : ℕ)
            → table x (without target r.shell.numbered_pipes) ≡ table x r.shell.numbered_pipes)
        → Accounted base r
        → Prepares (new_target target next plan (create_pipe_or_die system r.os) r)
    new_target-Prepares target next plan r idle same b =
        go (create_pipe_or_die system r.os) (create_pipe_or_die-Made posix r.os b)
      where
        go :
            (made : Option (PipeFd × Os))
            → Made system (account base r) made
            → Prepares (new_target target next plan made r)
        go none a = a
        go (some (p, os)) a =
            Balanced-account _ (λ x. omega (arith, idle x, same x, to_pipe-of_plan next plan p x)) a

    no_end :
        (p : PipeFd) (x : ℕ)
        → (not (is_some p.read_fd) && not (is_some p.write_fd)) ≡ true
        → ends x p ≡ 0
    no_end p x h = go p.read_fd p.write_fd h
      where
        go : (a b : Option ℕ) → (not (is_some a) && not (is_some b)) ≡ true → one x a + one x b ≡ 0
        go none none e = omega arith
        go (some fd) b e = cc
        go none (some fd) e = cc

    with_target-Prepares :
        (target : ℕ) (next : NextType) (plan : IoPlan) (found : Option PipeFd) (r : Running)
        → ((x : ℕ) → of_plan plan x ≡ 0)
        → pipe_at target r.shell.numbered_pipes ≡ found
        → Accounted base r
        → Prepares (with_target system target next plan found r)
    unfolding with_target
    with_target-Prepares target next plan none r idle e b =
        new_target-Prepares target next plan r idle
          (λ x. ap (table x) (without-none target r.shell.numbered_pipes e)) b
    with_target-Prepares target next plan (some p) r idle e b =
        elim (Bool-cases (not (is_some p.read_fd) && not (is_some p.write_fd))) [
          | inl empty ↦ rw (empty) (
              new_target-Prepares target next plan r idle
                (λ x.
                  omega
                    (arith, table-without target x r.shell.numbered_pipes p e, no_end p x empty))
                b)
          | inr kept ↦
              rw (kept)
                (Balanced-account _ (λ x. omega (arith, idle x, to_pipe-of_plan next plan p x)) b)
        ]

    with_next-Prepares :
        (next : NextType) (segment count : ℕ) (plan : IoPlan) (r : Running)
        → ((x : ℕ) → of_plan plan x ≡ 0)
        → Accounted base r
        → Prepares (with_next system next segment count plan r)
    unfolding with_next
    with_next-Prepares none_next segment count plan r idle b =
        Balanced-account _ (λ x. omega (arith, idle x)) b
    with_next-Prepares ordinary_pipe segment count plan r idle b =
        with_ordinary-Prepares plan r idle b
    with_next-Prepares number_pipe_out segment count plan r idle b =
        with_target-Prepares (segment + count) number_pipe_out plan _ r idle refl b
    with_next-Prepares number_pipe_both segment count plan r idle b =
        with_target-Prepares (segment + count) number_pipe_both plan _ r idle refl b

    if-Prepares :
        (b : Bool) (p q : Prepared) → Prepares p → Prepares q → Prepares (if b then p else q)
    if-Prepares true p q h k = h
    if-Prepares false p q h k = k

    module _ (config : ExecutionConfig) where
      route-Prepares :
          (command : Command) (segment : ℕ) (last : Bool) (r : Running)
          → Accounted base r
          → Prepares (route system config command segment last r)
      unfolding route
      route-Prepares command segment last r b =
          if-Prepares (last && config.force_last_output && is_some config.output_fd) _ _
            (Balanced-account _ (λ x. omega arith) b)
            (if-Prepares command.redirect_stdout _ _
              (with_redirect-Prepares (start_plan system config) command.redirect_file r
                (λ x. omega arith) b)
              (with_next-Prepares command.next_type segment command.next_count
                (start_plan system config) r (λ x. omega arith) b))

      -- The configured input, until the first command takes it.
      abbrev pub untaken : Bool → Option ℕ
      untaken first = if first then config.input_fd else none

      take_input-Accounted :
          (first : Bool) (r : Running)
          → Balanced (λ x. account base r x + one x (untaken first)) r.os
          → Accounted base (take_input system config first r)
      unfolding take_input
      take_input-Accounted false r b = Balanced-account _ (λ x. omega arith) b
      take_input-Accounted true r b = go config.input_fd b
        where
          go :
              (input : Option ℕ)
              → Balanced (λ x. account base r x + one x input) r.os
              → Accounted base (
                  if is_some input
                  then record r { os = close_fd r.in_fd r.os; in_fd = input }
                  else r)
          go none a = Balanced-account _ (λ x. omega arith) a
          go (some fd) a = close_fd-Balanced _ r.in_fd (λ x. omega arith) a

      pub prepare_io_plan-Prepares :
          (command : Command) (segment : ℕ) (first last : Bool) (r : Running)
          → Balanced (λ x. account base r x + one x (untaken first)) r.os
          → Prepares (prepare_io_plan system config command segment first last r)
      unfolding prepare_io_plan
      prepare_io_plan-Prepares command segment first last r b =
          route-Prepares command segment last _ (take_input-Accounted first r b)
