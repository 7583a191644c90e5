-- ===== src/ShellCore/Line/Delivery.antt =====
-- A numbered pipe is read by the command that its count names.
use network_programming.Base.{
  ℕ, ◌+◌, ◌≤◌, inl, inr, false, ◌>>=◌, List, [], ◌∷◌, ◌++◌, Option, none, some, ◌≡◌, sym, subst,
  arith, refl, ap, ◌∙◌, ◌==◌, length,
}
use network_programming.Shell.Command.{Command}
use network_programming.ShellCore.Execute.{
  ExecutionConfig, Running, attach_incoming_numbered_pipe, Prepared, exits, fails, planned,
  start_plan,
}
use network_programming.ShellCore.Line.{Executed, execute_external_commands}
use network_programming.ShellCore.Os.{Os, System, PipeFd}
use network_programming.ShellCore.State.{Pipes, ShellState, pipe_at, without}
use network_programming.ShellCore.Line.Single.{
  IsPlain, IsWriter, read_end, IsOpenConfig, Attached, attach-Attached, spawn_for, Runs, before,
}
use network_programming.ShellCore.Line.Target.{
  IsFrom, line_of, execute-line_of, Runs-line_of, Targets, prepare-plain, prepare-writer,
}

pipe_at-without :
    (target segment : ℕ) (ps : Pipes)
    → (segment == target) ≡ false
    → pipe_at target (without segment ps) ≡ pipe_at target ps
unfolding pipe_at without
pipe_at-without target segment [] h = refl
pipe_at-without target segment ((s, p) ∷ ps) h = ground (arith, pipe_at-without target segment ps)

module _ (system : System) (config : ExecutionConfig) where
  module _ (open_config : IsOpenConfig config) where
    after-Attached :
        (shell : ShellState) (os : Os)
        → let segment = shell.executed_segments + 1 in
          Attached
            (pipe_at segment shell.numbered_pipes)
            segment
            shell
            os
            (attach_incoming_numbered_pipe segment (before shell os))
    unfolding attach_incoming_numbered_pipe
    after-Attached shell os =
        let segment = shell.executed_segments + 1 in
        attach-Attached (pipe_at segment shell.numbered_pipes) segment shell os refl

    -- A line of one plain command.
    pub plain_line-Runs :
        (c : Command) (shell : ShellState) (os : Os)
        → IsPlain c
        → (e : Executed) × (execute_external_commands system config (c ∷ []) shell os ≡ some e)
          × Runs c shell os config.output_fd config.error_fd e
          × (e.shell.numbered_pipes ≡ without (shell.executed_segments + 1) shell.numbered_pipes)
    plain_line-Runs c shell os plain =
        let segment = shell.executed_segments + 1 in
        let r = attach_incoming_numbered_pipe segment (before shell os) in
        let attached = after-Attached shell os in
        let (e, ends, runs, pipes) =
          Runs-line_of system config c shell os r (start_plan system config) attached.executed
            attached.spawned attached.input in
        (
          e,
          execute-line_of system config c shell os plain.some_word
              ∙ ap (line_of system config c shell os)
                  (prepare-plain system config open_config c segment r plain)
              ∙ ends,
          runs,
          pipes ∙ attached.pipes,
        )

    -- What a line of one writer does: its output is the pipe of a later segment.
    abbrev pub Writes : Command → ShellState → Os → Option Executed → Type 0
    Writes c shell os none = Unit
    Writes c shell os (some e) =
        (p : PipeFd) × IsFrom system (shell.executed_segments + 1 + c.next_count)
          shell.numbered_pipes p
        × (pipe_at (shell.executed_segments + 1 + c.next_count) e.shell.numbered_pipes ≡ some p)
        × Runs c shell os p.write_fd config.error_fd e

    pub writer_line-Writes :
        (c : Command) (shell : ShellState) (os : Os)
        → IsWriter c
        → 1 ≤ c.next_count
        → Writes c shell os (execute_external_commands system config (c ∷ []) shell os)
    writer_line-Writes c shell os writer later =
        let segment = shell.executed_segments + 1 in
        let r = attach_incoming_numbered_pipe segment (before shell os) in
        rw (execute-line_of system config c shell os writer.some_word) (
          go r (after-Attached shell os) _
            (prepare-writer system config open_config c segment r writer))
      where
        from_shell :
            (r : Running)
            → Attached
                (pipe_at (shell.executed_segments + 1) shell.numbered_pipes)
                (shell.executed_segments + 1)
                shell
                os
                r
            → (p : PipeFd)
            → IsFrom system (shell.executed_segments + 1 + c.next_count) r.shell.numbered_pipes p
            → IsFrom system (shell.executed_segments + 1 + c.next_count) shell.numbered_pipes p
        from_shell r attached p (inr made) = inr made
        from_shell r attached p (inl found) = inl (
            sym (
              ap (pipe_at (shell.executed_segments + 1 + c.next_count)) attached.pipes
              ∙ pipe_at-without (shell.executed_segments + 1 + c.next_count)
                  (shell.executed_segments + 1) shell.numbered_pipes (ground arith))
            ∙ found)

        go :
            (r : Running)
            → Attached
                (pipe_at (shell.executed_segments + 1) shell.numbered_pipes)
                (shell.executed_segments + 1)
                shell
                os
                r
            → (p : Prepared)
            → Targets system config (shell.executed_segments + 1 + c.next_count) r p
            → Writes c shell os (line_of system config c shell os p)
        go r attached exits t = tt
        go r attached (fails r') t = absurd t
        go r attached (planned r' plan) (p, from, found, out, err, counted, same, input) =
            let (e, ends, runs, pipes) =
              Runs-line_of system config c shell os r' plan (counted ∙ attached.executed)
                (same ∙ attached.spawned) (input ∙ attached.input) in
            subst (λ o. Writes c shell os o) (sym ends)
              (
                p,
                from_shell r attached p from,
                ap (pipe_at (shell.executed_segments + 1 + c.next_count)) pipes ∙ found,
                subst (λ o. Runs c shell os o config.error_fd e) out
                    (subst (λ o. Runs c shell os plan.out_fd o e) err runs),
              )

    abbrev pub ArePlain : List Command → Type 0
    ArePlain [] = Unit
    ArePlain (c ∷ cs) = IsPlain c × ArePlain cs

    -- One line after another, of one command each.
    abbrev pub execute_single_lines : List Command → ShellState → Os → Option (ShellState × Os)
    execute_single_lines [] shell os = some (shell, os)
    execute_single_lines (c ∷ cs) shell os =
        execute_external_commands system config (c ∷ []) shell os >>= λ e.
        execute_single_lines cs e.shell e.os

    abbrev Reaches : ℕ → PipeFd → Option (ShellState × Os) → Type 0
    Reaches target p o =
        (shell : ShellState) × (os : Os) × (o ≡ some (shell, os))
        × (shell.executed_segments + 1 ≡ target)
        × (pipe_at target shell.numbered_pipes ≡ some p)

    lines-Reaches :
        (cs : List Command) (target : ℕ) (p : PipeFd) (shell : ShellState) (os : Os)
        → ArePlain cs
        → shell.executed_segments + (length cs + 1) ≡ target
        → pipe_at target shell.numbered_pipes ≡ some p
        → Reaches target p (execute_single_lines cs shell os)
    lines-Reaches [] target p shell os plain counted found = (shell, os, refl, counted, found)
    lines-Reaches (c ∷ cs) target p shell os (plain, rest) counted found =
        let (e, executes, runs, pipes) = plain_line-Runs c shell os plain in
        let kept : pipe_at target e.shell.numbered_pipes ≡ some p =
          ap (pipe_at target) pipes
          ∙ pipe_at-without target (shell.executed_segments + 1) shell.numbered_pipes (ground arith)
          ∙ found in
        rw (executes)
          (lines-Reaches cs target p e.shell e.os rest (omega (arith, runs.executed)) kept)

    -- Where no input is configured, no output is forced and the system gave the pipe: the output of a
    -- line of one command with |n goes into a pipe, which is the one that stood for the n-th line after
    -- it or else one whose two ends a single call of pipe gave, and that n-th line reads the same pipe,
    -- if that line and the lines between are single commands with a word, no redirection and no pipe
    -- behind them.
    pub execute_external_commands-delivery :
        (c : Command) (cs : List Command) (d : Command) (shell : ShellState) (os : Os)
        (written : Executed)
        → IsWriter c
        → c.next_count ≡ length cs + 1
        → ArePlain cs
        → IsPlain d
        → execute_external_commands system config (c ∷ []) shell os ≡ some written
        → (p : PipeFd) × (later : ShellState) × (later_os : Os) × (e : Executed) × IsFrom system
            (shell.executed_segments + 1 + c.next_count)
            shell.numbered_pipes
            p
          × Runs c shell os p.write_fd config.error_fd written
          × (execute_single_lines cs written.shell written.os ≡ some (later, later_os))
          × (execute_external_commands system config (d ∷ []) later later_os ≡ some e)
          × (e.os.spawned
              ≡ later_os.spawned ++ spawn_for d p.read_fd config.output_fd config.error_fd ∷ [])
    execute_external_commands-delivery c cs d shell os written writer count plain reader executes =
        let (p, from, found, writes) =
          subst (Writes c shell os) executes
            (writer_line-Writes c shell os writer (omega (arith, count))) in
        let (later, later_os, reaches, counted, kept) =
          lines-Reaches cs (shell.executed_segments + 1 + c.next_count) p written.shell written.os
            plain (omega (arith, writes.executed)) found in
        let (e, reads, runs, pipes) = plain_line-Runs d later later_os reader in
        let from_pipe : read_end (pipe_at (later.executed_segments + 1) later.numbered_pipes)
            ≡ p.read_fd =
          ap (λ target. read_end (pipe_at target later.numbered_pipes)) counted
          ∙ ap read_end kept in
        (
          p,
          later,
          later_os,
          e,
          from,
          writes,
          reaches,
          reads,
          runs.spawned
              ∙ ap
                  (λ in_fd.
                    later_os.spawned ++ spawn_for d in_fd config.output_fd config.error_fd ∷ [])
                  from_pipe,
        )
