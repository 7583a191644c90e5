-- ===== src/ShellCore/Execute.antt =====
-- shell_core.h of project 2: `executeExternalCommands`, which starts the commands of a line, and its
-- helpers. What a process does after `fork` is not modelled here but for the descriptors that it gets.
pub mod Attach
pub mod Balance
use network_programming.Base.{
  ℕ, zero, suc, ◌+◌, Bool, true, false, not, ◌&&◌, List, [], ◌∷◌, ◌++◌, Option, none, some, Text,
  ◌==◌, if◌then◌else◌, is_empty,
}
use network_programming.Shell.Command.{
  Command, NextType, none_next, ordinary_pipe, number_pipe_out, number_pipe_both,
}
use network_programming.Shell.Plan.{LinePlan, build_line_plan, build_waitability}
use network_programming.ShellCore.Os.{
  Os, System, PipeFd, no_pipe, Spawn, close_fd, create_pipe_or_die, open_for_writing, spawn,
}
use network_programming.ShellCore.State.{ShellState, Pipes, pipe_at, without}

-- ExecutionConfig; `none` is -1. The descriptors closed in the child are not part of it.
pub record ExecutionConfig : Type 0 where
  pub input_fd : Option ℕ
  pub output_fd : Option ℕ
  pub error_fd : Option ℕ
  pub force_last_output : Bool

-- ReusableIoPlan
pub record IoPlan : Type 0 where
  pub out_fd : Option ℕ
  pub err_fd : Option ℕ
  pub next_in_fd : Option ℕ
  pub redirect_fd : Option ℕ
  pub ordinary_pipe : PipeFd

-- The shell's state, its descriptors, and the variable `inFd`.
pub record Running : Type 0 where
  pub shell : ShellState
  pub os : Os
  pub in_fd : Option ℕ

abbrev pub is_some : Option ℕ → Bool
is_some none = false
is_some (some fd) = true

abbrev pub same_fd : Option ℕ → Option ℕ → Bool
same_fd none none = true
same_fd (some a) (some b) = a == b
same_fd _ _ = false

-- The incoming pipe's read end becomes the input, or is closed where there is an input already.
abbrev take_read_end : Option ℕ → PipeFd → Os → Option ℕ × Os
take_read_end none p os = (p.read_fd, os)
take_read_end (some fd) p os =
    if same_fd (some fd) p.read_fd then (some fd, os) else (some fd, close_fd p.read_fd os)

abbrev pub attach : Option PipeFd → ℕ → Running → Running
attach none segment r = r
attach (some p) segment r =
    let (in_fd, os) = take_read_end r.in_fd p r.os in
    record {
      shell = record r.shell { numbered_pipes = without segment r.shell.numbered_pipes };
      os = close_fd p.write_fd os;
      in_fd = in_fd;
    }

unfoldable pub attach_incoming_numbered_pipe : ℕ → Running → Running
attach_incoming_numbered_pipe segment r = attach (pipe_at segment r.shell.numbered_pipes) segment r

-- What `prepareIoPlan` ends in: the exit of the process, `false`, or a plan.
pub data Prepared : Type 0 where
  exits : Prepared
  fails : Running → Prepared
  planned : Running → IoPlan → Prepared

abbrev pub with_redirect : IoPlan → Option ℕ × Os → Running → Prepared
with_redirect plan (none, os) r = fails (record r { os = close_fd r.in_fd os; in_fd = none })
with_redirect plan (some fd, os) r =
    planned (record r { os = os }) (record plan { redirect_fd = some fd; out_fd = some fd })

abbrev with_ordinary : IoPlan → Option (PipeFd × Os) → Running → Prepared
with_ordinary plan none r = exits
with_ordinary plan (some (p, os)) r =
    planned (record r { os = os })
      (record plan { ordinary_pipe = p; out_fd = p.write_fd; next_in_fd = p.read_fd })

abbrev pub to_pipe : NextType → IoPlan → PipeFd → IoPlan
to_pipe number_pipe_both plan p = record plan { out_fd = p.write_fd; err_fd = p.write_fd }
to_pipe _ plan p = record plan { out_fd = p.write_fd }

abbrev pub new_target : ℕ → NextType → IoPlan → Option (PipeFd × Os) → Running → Prepared
new_target target next plan none r = exits
new_target target next plan (some (p, os)) r =
    planned
      (record r {
        os = os;
        shell = record r.shell {
          numbered_pipes = (target, p) ∷ without target r.shell.numbered_pipes;
        };
      })
      (to_pipe next plan p)

module _ (system : System) where
  -- state.numberedPipes[targetSegment], made where it is missing or has no end.
  unfoldable pub with_target : ℕ → NextType → IoPlan → Option PipeFd → Running → Prepared
  with_target target next plan none r =
      new_target target next plan (create_pipe_or_die system r.os) r
  with_target target next plan (some p) r =
      if not (is_some p.read_fd) && not (is_some p.write_fd)
      then new_target target next plan (create_pipe_or_die system r.os) r
      else planned r (to_pipe next plan p)

  unfoldable pub with_next : NextType → ℕ → ℕ → IoPlan → Running → Prepared
  unfolding with_target
  with_next none_next segment count plan r = planned r plan
  with_next ordinary_pipe segment count plan r =
      with_ordinary plan (create_pipe_or_die system r.os) r
  with_next number_pipe_out segment count plan r =
      with_target (segment + count) number_pipe_out plan
        (pipe_at (segment + count) r.shell.numbered_pipes) r
  with_next number_pipe_both segment count plan r =
      with_target (segment + count) number_pipe_both plan
        (pipe_at (segment + count) r.shell.numbered_pipes) r

  module _ (config : ExecutionConfig) where
    abbrev pub start_plan : IoPlan
    start_plan = record {
      out_fd = config.output_fd;
      err_fd = config.error_fd;
      next_in_fd = none;
      redirect_fd = none;
      ordinary_pipe = no_pipe;
    }

    -- The configured input replaces what the first command would read.
    unfoldable pub take_input : Bool → Running → Running
    take_input first r =
        if first && is_some config.input_fd
        then record r { os = close_fd r.in_fd r.os; in_fd = config.input_fd }
        else r

    unfoldable pub route : Command → ℕ → Bool → Running → Prepared
    unfolding with_next
    route command segment last r =
        if last && config.force_last_output && is_some config.output_fd
        then planned r start_plan
        else if command.redirect_stdout
        then with_redirect start_plan (open_for_writing system command.redirect_file r.os) r
        else with_next command.next_type segment command.next_count start_plan r

    unfoldable pub prepare_io_plan : Command → ℕ → Bool → Bool → Running → Prepared
    unfolding take_input route
    prepare_io_plan command segment first last r = route command segment last (take_input first r)
