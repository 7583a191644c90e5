-- ===== src/ShellCore/Os.antt =====
-- The system below shell_core.h, as far as the shell uses it: the descriptors that the process has
-- open, and the processes that it starts.
pub mod Balance
use network_programming.Base.{
  ℕ, suc, ◌+◌, Bool, true, false, List, [], ◌∷◌, ◌++◌, Option, none, some, Text, ◌==◌,
  if◌then◌else◌, length,
}

-- A process that was started: its arguments, and the descriptors that become its standard ones.
-- `none` leaves the descriptor that the shell itself has.
pub record Spawn : Type 0 where
  pub argv : List Text
  pub in_fd : Option ℕ
  pub out_fd : Option ℕ
  pub err_fd : Option ℕ

-- A fault is a `close` of a descriptor that is not open.
pub record Os : Type 0 where
  pub fds : List ℕ
  pub calls : ℕ
  pub faults : ℕ
  pub spawned : List Spawn

-- The answers of the system to the k-th call, made with these descriptors open: the two ends of
-- `pipe`, and the descriptor of `open`. `none` is an error.
pub record System : Type 0 where
  pub pipe : ℕ → List ℕ → Option (ℕ × ℕ)
  pub open_file : ℕ → List ℕ → Text → Option ℕ

abbrev pub occurs : ℕ → List ℕ → ℕ
occurs x [] = 0
occurs x (y ∷ ys) = (if y == x then 1 else 0) + occurs x ys

unfoldable pub remove : ℕ → List ℕ → List ℕ
remove x [] = []
remove x (y ∷ ys) = let rest = remove x ys in if y == x then ys else y ∷ rest

-- closeFd; `none` is -1.
unfoldable pub close_fd : Option ℕ → Os → Os
unfolding remove
close_fd none os = os
close_fd (some fd) os = record os {
  fds = remove fd os.fds;
  faults = (if occurs fd os.fds == 0 then os.faults + 1 else os.faults);
}

-- The two ends of a pipe; `none` is -1.
pub record PipeFd : Type 0 where
  pub read_fd : Option ℕ
  pub write_fd : Option ℕ

abbrev pub no_pipe : PipeFd
no_pipe = record { read_fd = none; write_fd = none }

unfoldable pub close_pipe : PipeFd → Os → Os
close_pipe p os = close_fd p.write_fd (close_fd p.read_fd os)

module _ (system : System) where
  given : Option (ℕ × ℕ) → Os → Option (PipeFd × Os)
  given none os = none
  given (some (r, w)) os = some (
    record { read_fd = some r; write_fd = some w },
    record os { fds = r ∷ w ∷ os.fds; calls = os.calls + 1 },
  )

  -- createPipeOrDie; `none` is the exit of the process.
  unfoldable pub create_pipe_or_die : Os → Option (PipeFd × Os)
  unfolding given
  create_pipe_or_die os = given (system.pipe os.calls os.fds) os

  opened : Option ℕ → Os → Option ℕ × Os
  opened none os = (none, record os { calls = os.calls + 1 })
  opened (some fd) os = (some fd, record os { fds = fd ∷ os.fds; calls = os.calls + 1 })

  unfoldable pub open_for_writing : Text → Os → Option ℕ × Os
  unfolding opened
  open_for_writing name os = opened (system.open_file os.calls os.fds name) os

-- forkOrReapUntilSuccess, in the parent: the number of the new process.
unfoldable pub spawn : Spawn → Os → ℕ × Os
spawn s os = (length os.spawned, record os { spawned = os.spawned ++ s ∷ [] })
