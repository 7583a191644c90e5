-- ===== src/ShellCore/Line/Target.antt =====
-- Where the output of a command that is a line of its own goes.
use network_programming.Base.{
  ℕ, ◌+◌, ◌⊎◌, inl, inr, true, false, not, ◌&&◌, ◌-◌, ◌>>=◌, [], ◌∷◌, Option, none, some, is_empty,
  ◌≡◌, arith, refl, ap, ◌∙◌, if_both,
}
use network_programming.Shell.Command.{Command, number_pipe_out}
use network_programming.Shell.Plan.{build_line_plan, build_waitability}
use network_programming.ShellCore.Execute.{
  ExecutionConfig, IoPlan, Running, attach_incoming_numbered_pipe, Prepared, exits, fails, planned,
  prepare_io_plan, new_target, with_target, start_plan, is_some, to_pipe,
}
use network_programming.ShellCore.Line.{
  start_command, prepared, Executed, finish_line, execute_external_commands,
}
use network_programming.ShellCore.Os.{Os, System, PipeFd}
use network_programming.ShellCore.Os.Balance.{
  IsMade, MadeIn, create_pipe_or_die-MadeIn, SameSpawned, create_pipe_or_die-SameSpawned,
}
use network_programming.ShellCore.State.{Pipes, ShellState, pipe_at, without}
use network_programming.ShellCore.Line.Single.{
  IsPlain, IsWriter, read_end, IsOpenConfig, close_fd-spawned, Runs, start_command-spawned,
  start_command-shell, bind-some, alone, before, first_loop,
}

module _ (system : System) where
  -- The pipe that already stood for the segment, or a new one.
  abbrev pub IsFrom : ℕ → Pipes → PipeFd → Type 0
  IsFrom target ps p = (pipe_at target ps ≡ some p) ⊎ IsMade system p

module _ (system : System) (config : ExecutionConfig) where
  abbrev pub line_of : Command → ShellState → Os → Prepared → Option Executed
  line_of c shell os p =
      prepared (alone c (shell.executed_segments + 1)) (first_loop (before shell os)) p >>= λ l.
      some (finish_line (shell.executed_segments + 1 - shell.executed_segments) l)

  pub execute-line_of :
      (c : Command) (shell : ShellState) (os : Os)
      → is_empty c.argv ≡ false
      → execute_external_commands system config (c ∷ []) shell os
        ≡ line_of c shell os (
            prepare_io_plan system config c
              (shell.executed_segments + 1)
              true
              true
              (attach_incoming_numbered_pipe (shell.executed_segments + 1) (before shell os)))
  unfolding execute_external_commands build_line_plan build_waitability
  execute-line_of c shell os h = rw (h) (
      ap
        (λ o.
          o >>= λ l. some (finish_line (shell.executed_segments + 1 - shell.executed_segments) l))
        (bind-some _))

  pub Runs-line_of :
      (c : Command) (shell : ShellState) (os : Os) (r : Running) (plan : IoPlan)
      → r.shell.executed_segments ≡ shell.executed_segments
      → r.os.spawned ≡ os.spawned
      → r.in_fd ≡ read_end (pipe_at (shell.executed_segments + 1) shell.numbered_pipes)
      → (e : Executed) × (line_of c shell os (planned r plan) ≡ some e)
        × Runs c shell os plan.out_fd plan.err_fd e
        × (e.shell.numbered_pipes ≡ r.shell.numbered_pipes)
  unfolding finish_line
  Runs-line_of c shell os r plan counted same input =
      let l =
        start_command (alone c (shell.executed_segments + 1)) (first_loop (before shell os)) r
          plan in
      let kept =
        start_command-shell (alone c (shell.executed_segments + 1)) (first_loop (before shell os)) r
          plan in
      (
        finish_line (shell.executed_segments + 1 - shell.executed_segments) l,
        refl,
        record {
          executed =
              ap
                (λ (s : ShellState).
                  s.executed_segments + (shell.executed_segments + 1 - shell.executed_segments))
                kept
              ∙ omega (arith, counted);
          spawned =
              close_fd-spawned l.running.in_fd l.running.os
              ∙ start_command-spawned (alone c (shell.executed_segments + 1))
                  (first_loop (before shell os)) r plan
              ∙ rw (same, input) refl;
        },
        ap (λ (s : ShellState). s.numbered_pipes) kept,
      )

  -- The command's output is the write end of the pipe of the segment `target`, or there is no pipe
  -- and the shell exits.
  abbrev pub Targets : ℕ → Running → Prepared → Type 0
  Targets target r exits = Unit
  Targets target r (fails r') = ⊥
  Targets target r (planned r' plan) =
      (p : PipeFd) × IsFrom system target r.shell.numbered_pipes p
      × (pipe_at target r'.shell.numbered_pipes ≡ some p)
      × (plan.out_fd ≡ p.write_fd)
      × (plan.err_fd ≡ config.error_fd)
      × (r'.shell.executed_segments ≡ r.shell.executed_segments)
      × (r'.os.spawned ≡ r.os.spawned)
      × (r'.in_fd ≡ r.in_fd)

  pipe_at-head : (target : ℕ) (p : PipeFd) (ps : Pipes) → pipe_at target ((target, p) ∷ ps) ≡ some p
  unfolding pipe_at
  pipe_at-head target p ps = ground arith

  new_target-Targets :
      (target : ℕ) (r : Running) (made : Option (PipeFd × Os))
      → SameSpawned r.os made
      → MadeIn system made
      → Targets target r (new_target target number_pipe_out (start_plan system config) made r)
  new_target-Targets target r none h made = tt
  new_target-Targets target r (some (p, os)) h made = (
    p,
    inr made,
    pipe_at-head target p (without target r.shell.numbered_pipes),
    refl,
    refl,
    refl,
    h,
    refl,
  )

  with_target-Targets :
      (target : ℕ) (r : Running) (found : Option PipeFd)
      → pipe_at target r.shell.numbered_pipes ≡ found
      → Targets target r
          (with_target system target number_pipe_out (start_plan system config) found r)
  unfolding with_target
  with_target-Targets target r none e =
      new_target-Targets target r _ (create_pipe_or_die-SameSpawned system r.os)
        (create_pipe_or_die-MadeIn system r.os)
  with_target-Targets target r (some p) e =
      if_both (Targets target r) (not (is_some p.read_fd) && not (is_some p.write_fd))
        {y = planned r (to_pipe number_pipe_out (start_plan system config) p)}
        (new_target-Targets target r _ (create_pipe_or_die-SameSpawned system r.os)
          (create_pipe_or_die-MadeIn system r.os))
        (p, inl e, e, refl, refl, refl, refl, refl)

  module _ (open_config : IsOpenConfig config) where
    pub prepare-plain :
        (c : Command) (segment : ℕ) (r : Running)
        → IsPlain c
        → prepare_io_plan system config c segment true true r ≡ planned r (start_plan system config)
    unfolding prepare_io_plan
    prepare-plain c segment r plain =
        rw (open_config.no_input, open_config.not_forced, plain.no_file, plain.no_pipe_behind) refl

    pub prepare-writer :
        (c : Command) (segment : ℕ) (r : Running)
        → IsWriter c
        → Targets (segment + c.next_count) r (prepare_io_plan system config c segment true true r)
    unfolding prepare_io_plan
    prepare-writer c segment r writer =
        rw (open_config.no_input, open_config.not_forced, writer.no_file, writer.numbered)
          (with_target-Targets (segment + c.next_count) r _ refl)
