-- ===== src/Multi/Line/Descriptors.antt =====
-- np_multi_proc.cpp: the descriptors of a process across executeLine.
use network_programming.Base.{ℕ, ◌+◌, List, none, ◌≡◌}
use network_programming.Multi.Pipes.{UserPipeResolution}
use network_programming.Multi.Process.{Outcome, Process, running, Run}
use network_programming.Multi.Process.Owns.{Owns}
use network_programming.Rwg.Pipes.{UserPipeRequest}
use network_programming.Shell.Command.{Command}
use network_programming.ShellCore.Line.Balance.{input_left}
use network_programming.ShellCore.Os.Balance.{one}

-- What a line leaves open beside what was open, where `resolved` is what resolveUserPipes came to: the
-- holdFd of its resolution, and the inputFd if no command has taken it.
pub record IsLeft (f : ℕ → ℕ) (commands : List Command) (request : UserPipeRequest)
    (resolved : Outcome UserPipeResolution) (run : Run) : Type 0 where
  pub resolution : UserPipeResolution
  pub behind : Run
  pub is_resolved : resolved ≡ running resolution behind
  pub owns :
      Owns
        (λ x. f x + one x resolution.hold_fd + one x (input_left commands resolution.input_fd))
        run
  pub no_hold : request.output_to ≡ none → resolution.hold_fd ≡ none
  pub no_input : request.input_from ≡ none → resolution.input_fd ≡ none
