-- ===== src/Shell/Plan.antt =====
-- shell_core.h: which commands of a line are waited for (`buildWaitability`), and how they are
-- numbered (`buildLinePlan`).
pub mod Laws
use network_programming.Base.{
  ℕ, zero, suc, ◌+◌, ◌-◌, Bool, true, false, not, List, [], ◌∷◌, ◌++◌, length, replicate,
  if◌then◌else◌,
}
use network_programming.Shell.Command.{
  Command, NextType, none_next, is_ordinary, is_number_pipe_type,
}

-- A segment: the number of its commands, the type at its end, and the commands behind it.
pub record Segment : Type 0 where
  pub size : ℕ
  pub end_type : NextType
  pub rest : List Command

-- The inner loop, from the first command of a segment: on through ordinary pipes, up to the last
-- command.
find_segment : Command → List Command → Segment
find_segment c [] = record { size = 1; end_type = c.next_type; rest = [] }
find_segment c (d ∷ cs) =
    let longer = find_segment d cs in
    if is_ordinary c.next_type
    then record longer { size = suc longer.size }
    else record { size = 1; end_type = c.next_type; rest = d ∷ cs }

-- The outer loop; each round takes a command at least, so the length of the list is fuel enough.
waitability_go : ℕ → List Command → List Bool
waitability_go zero cs = []
waitability_go (suc f) [] = []
waitability_go (suc f) (c ∷ cs) =
    let s = find_segment c cs in
    replicate s.size (not (is_number_pipe_type s.end_type)) ++ waitability_go f s.rest

unfoldable pub build_waitability : List Command → List Bool
unfolding waitability_go find_segment is_number_pipe_type
build_waitability commands = waitability_go (length commands) commands

pub record LinePlan : Type 0 where
  pub command_segments : List ℕ
  pub segment_starts : List Bool
  pub segment_count : ℕ

-- The loop over the commands: whether the command before ends in an ordinary pipe, and the cursor.
plan_go : Bool → ℕ → List Command → List ℕ × List Bool × ℕ
plan_go after_pipe cursor [] = ([], [], cursor)
plan_go after_pipe cursor (c ∷ cs) =
    let here = (if after_pipe then cursor else cursor + 1) in
    let (segments, starts, last) = plan_go (is_ordinary c.next_type) here cs in
    (here ∷ segments, not after_pipe ∷ starts, last)

unfoldable pub build_line_plan : ℕ → List Command → LinePlan
unfolding plan_go
build_line_plan executed_segments commands =
    let (segments, starts, cursor) = plan_go false executed_segments commands in
    record {
      command_segments = segments;
      segment_starts = starts;
      segment_count = cursor - executed_segments;
    }
