-- ===== src/Shell/Plan/Laws.antt =====
-- The plan against a description of each command by those behind it and before it.
use network_programming.Base.{
  ◌∙◌, ℕ, zero, suc, ◌+◌, ◌-◌, ◌≤◌, ◌<◌, Bool, false, not, List, [], ◌∷◌, ◌++◌, some, length,
  replicate, get_elem?, if◌then◌else◌, ◌≡◌, refl, arith, ap,
}
use network_programming.Shell.Command.{Command, is_ordinary, is_number_pipe_type}
use network_programming.Shell.Plan.{
  find_segment, waitability_go, build_waitability, LinePlan, plan_go, build_line_plan,
}

-- A command joined by an ordinary pipe to another waits as that one does; any other waits unless a
-- number pipe follows it.
abbrev waits_with : Bool → List Bool → Bool → Bool
waits_with joined [] own = own
waits_with joined (next ∷ later) own = if joined then next else own

abbrev pub waits : List Command → List Bool
waits [] = []
waits (c ∷ cs) =
    waits_with (is_ordinary c.next_type) (waits cs) (not (is_number_pipe_type c.next_type))
    ∷ waits cs

length-waits : (commands : List Command) → length (waits commands) ≡ length commands
length-waits [] = refl
length-waits (c ∷ cs) = ap suc (length-waits cs)

find_segment-pos : (c : Command) (cs : List Command) → 0 < (find_segment c cs).size
unfolding find_segment
find_segment-pos c [] = omega arith
find_segment-pos c (d ∷ cs) = ground arith

replicate-head :
    (x b : Bool) (xs rest : List Bool) (n : ℕ) → 0 < n → x ∷ xs ≡ replicate n b ++ rest → x ≡ b
replicate-head x b xs rest zero h e = absurd (omega arith)
replicate-head x b xs rest (suc n) h e = cc

find_segment-waits :
    (c : Command) (cs : List Command)
    → waits (c ∷ cs)
      ≡ replicate (find_segment c cs).size (not (is_number_pipe_type (find_segment c cs).end_type))
        ++ waits (find_segment c cs).rest
unfolding find_segment
find_segment-waits c [] = refl
find_segment-waits c (d ∷ cs) =
    let s = find_segment d cs in
    ground (
      arith,
      find_segment-waits d cs,
      replicate-head
          (waits_with (is_ordinary d.next_type) (waits cs) (not (is_number_pipe_type d.next_type)))
          (not (is_number_pipe_type s.end_type)) (waits cs) (waits s.rest) s.size
          (find_segment-pos d cs) (find_segment-waits d cs),
    )

find_segment-size :
    (c : Command) (cs : List Command) → suc (length (find_segment c cs).rest) ≤ suc (length cs)
unfolding find_segment
find_segment-size c [] = omega arith
find_segment-size c (d ∷ cs) = ground (arith, find_segment-size d cs)

waitability_go-waits : (f : ℕ) (cs : List Command) → length cs ≤ f → waitability_go f cs ≡ waits cs
unfolding waitability_go
waitability_go-waits zero [] h = refl
waitability_go-waits zero (c ∷ cs) h = absurd (omega arith)
waitability_go-waits (suc f) [] h = refl
waitability_go-waits (suc f) (c ∷ cs) h = ground (
  arith,
  find_segment-waits c cs,
  find_segment-size c cs,
  waitability_go-waits f (find_segment c cs).rest,
)

-- The table of the shell says of every command of every line what the description by neighbours
-- says: joined by an ordinary pipe to a next command it is waited for exactly if that one is, and
-- else unless a number pipe follows it.
pub build_waitability-waits :
    (commands : List Command) → build_waitability commands ≡ waits commands
unfolding build_waitability
build_waitability-waits commands = waitability_go-waits (length commands) commands (omega arith)

pub length-build_waitability :
    (commands : List Command) → length (build_waitability commands) ≡ length commands
length-build_waitability commands =
    ap length (build_waitability-waits commands) ∙ length-waits commands

-- The number of segments that begin among the first `n` commands.
abbrev pub starts_among : ℕ → List Bool → ℕ
starts_among zero starts = 0
starts_among (suc n) [] = 0
starts_among (suc n) (b ∷ starts) = (if b then 1 else 0) + starts_among n starts

-- Whether an ordinary pipe stands before the command with index `i`; the flag is for the first one.
abbrev pub joined : Bool → List Command → ℕ → Bool
joined after_pipe cs zero = after_pipe
joined after_pipe [] (suc i) = false
joined after_pipe (c ∷ cs) (suc i) = joined (is_ordinary c.next_type) cs i

-- A plan for commands behind `executed` segments.
pub record IsPlan (after_pipe : Bool) (executed : ℕ) (cs : List Command) (plan : LinePlan)
    : Type 0 where
  pub all_numbered : length plan.command_segments ≡ length cs
  pub all_marked : length plan.segment_starts ≡ length cs
  pub begins :
      (i : ℕ)
      → i < length cs
      → get_elem? plan.segment_starts i ≡ some (not (joined after_pipe cs i))
  pub numbers :
      (i : ℕ)
      → i < length cs
      → get_elem? plan.command_segments i
        ≡ some (executed + starts_among (suc i) plan.segment_starts)
  pub counts : plan.segment_count ≡ starts_among (length cs) plan.segment_starts

abbrev plan_of : ℕ → List ℕ × List Bool × ℕ → LinePlan
plan_of executed (segments, starts, cursor) = record {
  command_segments = segments;
  segment_starts = starts;
  segment_count = cursor - executed;
}

abbrev Goes : Bool → ℕ → List Command → List ℕ × List Bool × ℕ → Type 0
Goes after_pipe cursor cs (segments, starts, last) =
    (length segments ≡ length cs)
    × (length starts ≡ length cs)
    × ((i : ℕ) → i < length cs → get_elem? starts i ≡ some (not (joined after_pipe cs i)))
    × ((i : ℕ) → i < length cs → get_elem? segments i ≡ some (cursor + starts_among (suc i) starts))
    × (last ≡ cursor + starts_among (length cs) starts)

plan_go-Goes :
    (after_pipe : Bool) (cursor : ℕ) (cs : List Command)
    → Goes after_pipe cursor cs (plan_go after_pipe cursor cs)
unfolding plan_go
plan_go-Goes after_pipe cursor [] = (refl, refl, λ i h. elim h [ ], λ i h. elim h [ ], omega arith)
plan_go-Goes after_pipe cursor (c ∷ cs) =
    let here = (if after_pipe then cursor else cursor + 1) in
    let later = plan_go-Goes (is_ordinary c.next_type) here cs in
    (
      ap suc later.0,
      ap suc later.1,
      elim [ zero ↦ λ h. refl | suc i ↦ λ h. later.2 i (omega arith) ],
      elim [ zero ↦ λ h. ground arith | suc i ↦ λ h. ground (arith, later.3 i (omega arith)) ],
      ground (arith, later.4),
    )

-- Every command gets a number and a mark. A command begins a segment unless an ordinary pipe stands
-- before it; its number is that of the segments already executed plus the segments that have begun
-- up to it; and the line counts as many segments as begin in it.
pub build_line_plan-IsPlan :
    (executed : ℕ) (commands : List Command)
    → IsPlan false executed commands (build_line_plan executed commands)
unfolding build_line_plan
build_line_plan-IsPlan executed commands =
    let g = plan_go-Goes false executed commands in
    record {
      all_numbered = g.0;
      all_marked = g.1;
      begins = g.2;
      numbers = g.3;
      counts = omega (arith, g.4);
    }
