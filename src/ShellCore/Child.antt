-- ===== src/ShellCore/Child.antt =====
-- shell_core.h of project 2: `runChildProcess`, from `fork` to `execvp`.
pub mod Inherits
pub mod Streams
pub mod Table
mod Tests
use network_programming.Base.{
  ℕ, Bool, true, false, List, [], ◌∷◌, Option, none, some, Text, ltb, ◌==◌, if◌then◌else◌, free_of,
  is_empty, not, ◌&&◌,
}
use network_programming.Shell.Command.{Command}
use network_programming.ShellCore.Execute.{IoPlan, same_fd}
use network_programming.ShellCore.Os.{PipeFd}
use network_programming.ShellCore.State.{ShellState, Pipes, set_env}

-- The table of a process: the open file behind each of its descriptors.
abbrev pub Table : Type 0
Table = ℕ → Option ℕ

abbrev pub put_file : Option ℕ → ℕ → Table → Table
put_file none target t x = t x
put_file (some file) target t x = if x == target then some file else t x

-- dup2, which changes nothing where the descriptor is not open
abbrev pub dup2 : ℕ → ℕ → Table → Table
dup2 fd target t = put_file (t fd) target t

-- close
abbrev pub close : ℕ → Table → Table
close fd t x = if fd == x then none else t x

-- closeFd
abbrev pub close_entry : Option ℕ → Table → Table
close_entry none t = t
close_entry (some fd) t = close fd t

abbrev pub dup_input : Option ℕ → Table → Table
dup_input none t = t
dup_input (some fd) t = dup2 fd 0 t

-- `if (fd >= 0 && fd != target)`
abbrev pub dup_unless : Option ℕ → ℕ → Table → Table
dup_unless none target t = t
dup_unless (some fd) target t = if fd == target then t else dup2 fd target t

unfoldable pub close_numbered_pipes_in_child : Pipes → Table → Table
close_numbered_pipes_in_child [] t = t
close_numbered_pipes_in_child ((_, p) ∷ ps) t =
    close_numbered_pipes_in_child ps (close_entry p.write_fd (close_entry p.read_fd t))

abbrev pub close_duplicated_fd : Option ℕ → Table → Table
close_duplicated_fd none t = t
close_duplicated_fd (some fd) t = if ltb 2 fd then close fd t else t

unfoldable pub close_extra_fds_in_child : List (Option ℕ) → Table → Table
close_extra_fds_in_child [] t = t
close_extra_fds_in_child (fd ∷ fds) t = close_extra_fds_in_child fds (close_duplicated_fd fd t)

-- setenv refuses an empty name and one with an equals sign.
unfoldable pub apply_child_environment :
    List (Text × Text) → List (Text × Text) → List (Text × Text)
apply_child_environment done [] = done
apply_child_environment done ((name, value) ∷ env) =
    let applied = apply_child_environment (set_env done name value) env in
    let refused = apply_child_environment done env in
    if not (is_empty name) && free_of b'=' name then applied else refused

-- The process at `execvp`.
pub record Child : Type 0 where
  pub argv : List Text
  pub env : List (Text × Text)
  pub table : Table

abbrev pub duplicate : IoPlan → Option ℕ → Table → Table
duplicate plan in_fd t = dup_unless plan.err_fd 2 (dup_unless plan.out_fd 1 (dup_input in_fd t))

abbrev pub close_ends : IoPlan → Table → Table
close_ends plan t =
    close_entry plan.redirect_fd
      (close_entry plan.ordinary_pipe.write_fd (close_entry plan.ordinary_pipe.read_fd t))

abbrev pub close_duplicated : IoPlan → Option ℕ → Table → Table
close_duplicated plan in_fd t =
    let rest = close_duplicated_fd plan.out_fd (close_duplicated_fd in_fd t) in
    if same_fd plan.err_fd plan.out_fd then rest else close_duplicated_fd plan.err_fd rest

-- The child's table, after what it closes; `extra` is `closeInChild` of the configuration.
unfoldable pub child_table : Pipes → IoPlan → Option ℕ → List (Option ℕ) → Table → Table
unfolding close_numbered_pipes_in_child close_extra_fds_in_child
child_table pipes plan in_fd extra t = close_duplicated plan in_fd (
    close_ends plan (
      close_extra_fds_in_child extra
        (close_numbered_pipes_in_child pipes (duplicate plan in_fd t))))

unfoldable pub run_child_process :
    Command → ShellState → IoPlan → Option ℕ → List (Option ℕ) → Table → Child
unfolding child_table apply_child_environment
run_child_process command state plan in_fd extra t = record {
  argv = command.argv;
  env = apply_child_environment [] state.env;
  table = child_table state.numbered_pipes plan in_fd extra t;
}
