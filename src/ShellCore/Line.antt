-- ===== src/ShellCore/Line.antt =====
-- shell_core.h of project 2: `executeExternalCommands` as a whole.
pub mod Rows
pub mod Balance
pub mod Single
pub mod Target
pub mod Delivery
mod Tests
use network_programming.Base.{
  ℕ, ◌+◌, Bool, true, false, List, [], ◌∷◌, ◌++◌, Option, none, some, Text, if◌then◌else◌, is_empty,
  ◌>>=◌,
}
use network_programming.Shell.Command.{Command}
use network_programming.Shell.Plan.{LinePlan, build_line_plan, build_waitability}
use network_programming.ShellCore.Execute.{
  ExecutionConfig, IoPlan, Running, attach_incoming_numbered_pipe, Prepared, exits, fails, planned,
  prepare_io_plan,
}
use network_programming.ShellCore.Os.{Os, System, Spawn, close_fd, spawn}
use network_programming.ShellCore.State.{ShellState}

-- A command with its entries of `commandSegments`, `segmentStarts` and `waitable`.
pub record Row : Type 0 where
  pub command : Command
  pub segment : ℕ
  pub starts : Bool
  pub waitable : Bool

unfoldable pub rows_of : List Command → List ℕ → List Bool → List Bool → List Row
rows_of (c ∷ cs) (segment ∷ segments) (starts ∷ more_starts) (waitable ∷ more_waitable) =
    record { command = c; segment = segment; starts = starts; waitable = waitable }
    ∷ rows_of cs segments more_starts more_waitable
rows_of _ _ _ _ = []

-- The variables of the loop.
pub record Loop : Type 0 where
  pub running : Running
  pub wait_list : List ℕ
  pub background_list : List ℕ

spawn_of : Command → IoPlan → Option ℕ → Spawn
spawn_of command plan in_fd = record {
  argv = command.argv;
  in_fd = in_fd;
  out_fd = plan.out_fd;
  err_fd = plan.err_fd;
}

-- The parent's part after `prepareIoPlan`: fork, closeFd(inFd), inFd = nextInFd, closeParentIo.
unfoldable pub start_command : Row → Loop → Running → IoPlan → Loop
unfolding spawn_of
start_command row l r plan =
    let (pid, os) = spawn (spawn_of row.command plan r.in_fd) r.os in
    let closed =
      close_fd plan.redirect_fd (close_fd plan.ordinary_pipe.write_fd (close_fd r.in_fd os)) in
    record {
      running = record r { os = closed; in_fd = plan.next_in_fd };
      wait_list = if row.waitable then l.wait_list ++ pid ∷ [] else l.wait_list;
      background_list = if row.waitable then l.background_list else l.background_list ++ pid ∷ [];
    }

abbrev pub prepared : Row → Loop → Prepared → Option Loop
prepared row l exits = none
prepared row l (fails r) = some (record l { running = r })
prepared row l (planned r plan) = some (start_command row l r plan)

unfoldable pub attach_first : Row → Running → Running
attach_first row r = if row.starts then attach_incoming_numbered_pipe row.segment r else r

-- What a line leaves: the state, and the processes that were waited for and that were polled once.
pub record Executed : Type 0 where
  pub shell : ShellState
  pub os : Os
  pub waited : List ℕ
  pub polled : List ℕ

-- The end of the line. The processes to wait for and those to poll are kept in the order of the calls;
-- how a wait goes leaves no trace in the state: project 1 calls waitpid once for each process, and
-- project 2 again as long as it is interrupted.
unfoldable pub finish_line : ℕ → Loop → Executed
finish_line segment_count l =
    let shell = l.running.shell in
    record {
      shell = record shell { executed_segments = shell.executed_segments + segment_count };
      os = close_fd l.running.in_fd l.running.os;
      waited = l.wait_list;
      polled = l.background_list;
    }

module _ (system : System) (config : ExecutionConfig) where
  unfoldable pub execute_row : Bool → Bool → Row → Loop → Option Loop
  unfolding attach_first start_command
  execute_row first last row l =
      if is_empty row.command.argv
      then some l
      else prepared row l (
          prepare_io_plan system config row.command row.segment first last
            (attach_first row l.running))

  -- `none` is the exit of the shell, where a pipe cannot be made.
  unfoldable pub execute_rows : Bool → List Row → Loop → Option Loop
  unfolding execute_row
  execute_rows first [] l = some l
  execute_rows first (row ∷ rows) l = do
    l' ← execute_row first (is_empty rows) row l
    execute_rows false rows l'

  unfoldable pub execute_external_commands : List Command → ShellState → Os → Option Executed
  unfolding execute_rows finish_line rows_of
  execute_external_commands commands shell os = do
    let plan = build_line_plan shell.executed_segments commands
    let rows =
        rows_of commands plan.command_segments plan.segment_starts (build_waitability commands)
    let running : Running = record { shell = shell; os = os; in_fd = none }
    l ← execute_rows true rows (record { running = running; wait_list = []; background_list = [] })
    some (finish_line plan.segment_count l)
