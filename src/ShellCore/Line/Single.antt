-- ===== src/ShellCore/Line/Single.antt =====
-- The steps of a line that consists of one command.
use network_programming.Base.{
  ℕ, ◌+◌, true, false, not, ◌>>=◌, [], ◌∷◌, ◌++◌, Option, none, some, is_empty, ◌≡◌, sym, refl, ◌∙◌,
}
use network_programming.Shell.Command.{Command, is_number_pipe_type, none_next, number_pipe_out}
use network_programming.ShellCore.Execute.{ExecutionConfig, IoPlan, Running, attach}
use network_programming.ShellCore.Execute.Attach.{without-none}
use network_programming.ShellCore.Line.{Row, Loop, start_command, Executed}
use network_programming.ShellCore.Os.{Os, PipeFd, Spawn, close_fd, spawn}
use network_programming.ShellCore.State.{ShellState, pipe_at, without}

-- A command with a word, no redirection and no pipe behind it.
pub record IsPlain (c : Command) : Type 0 where
  pub some_word : is_empty c.argv ≡ false
  pub no_file : c.redirect_stdout ≡ false
  pub no_pipe_behind : c.next_type ≡ none_next

-- A command with a word, no redirection and a numbered pipe behind it.
pub record IsWriter (c : Command) : Type 0 where
  pub some_word : is_empty c.argv ≡ false
  pub no_file : c.redirect_stdout ≡ false
  pub numbered : c.next_type ≡ number_pipe_out

abbrev pub read_end : Option PipeFd → Option ℕ
read_end none = none
read_end (some p) = p.read_fd

-- Standard input is that of the shell, and the output goes where the command says.
pub record IsOpenConfig (config : ExecutionConfig) : Type 0 where
  pub no_input : config.input_fd ≡ none
  pub not_forced : config.force_last_output ≡ false

pub close_fd-spawned : (o : Option ℕ) (os : Os) → (close_fd o os).spawned ≡ os.spawned
unfolding close_fd
close_fd-spawned none os = refl
close_fd-spawned (some fd) os = refl

-- What a segment takes over from its numbered pipe.
pub record Attached (found : Option PipeFd) (segment : ℕ) (shell : ShellState) (os : Os)
    (r : Running) : Type 0 where
  pub executed : r.shell.executed_segments ≡ shell.executed_segments
  pub pipes : r.shell.numbered_pipes ≡ without segment shell.numbered_pipes
  pub spawned : r.os.spawned ≡ os.spawned
  pub input : r.in_fd ≡ read_end found

pub attach-Attached :
    (found : Option PipeFd) (segment : ℕ) (shell : ShellState) (os : Os)
    → pipe_at segment shell.numbered_pipes ≡ found
    → Attached found segment shell os
        (attach found segment (record { shell = shell; os = os; in_fd = none }))
attach-Attached none segment shell os e = record {
  executed = refl;
  pipes = sym (without-none segment shell.numbered_pipes e);
  spawned = refl;
  input = refl;
}
attach-Attached (some p) segment shell os e = record {
  executed = refl;
  pipes = refl;
  spawned = close_fd-spawned p.write_fd os;
  input = refl;
}

-- The process of a command that a line consists of.
abbrev pub spawn_for : Command → Option ℕ → Option ℕ → Option ℕ → Spawn
spawn_for c in_fd out_fd err_fd = record {
  argv = c.argv;
  in_fd = in_fd;
  out_fd = out_fd;
  err_fd = err_fd;
}

-- What a line of one command does.
pub record Runs (c : Command) (shell : ShellState) (os : Os) (out_fd err_fd : Option ℕ)
    (e : Executed) : Type 0 where
  pub executed : e.shell.executed_segments ≡ shell.executed_segments + 1
  pub spawned :
      e.os.spawned
      ≡ os.spawned
        ++ spawn_for c
            (read_end (pipe_at (shell.executed_segments + 1) shell.numbered_pipes))
            out_fd
            err_fd
          ∷ []

pub start_command-spawned :
    (row : Row) (l : Loop) (r : Running) (plan : IoPlan)
    → (start_command row l r plan).running.os.spawned
      ≡ r.os.spawned ++ spawn_for row.command r.in_fd plan.out_fd plan.err_fd ∷ []
unfolding start_command spawn
start_command-spawned row l r plan =
    close_fd-spawned plan.redirect_fd _
    ∙ close_fd-spawned plan.ordinary_pipe.write_fd _
    ∙ close_fd-spawned r.in_fd _

pub start_command-shell :
    (row : Row) (l : Loop) (r : Running) (plan : IoPlan)
    → (start_command row l r plan).running.shell ≡ r.shell
unfolding start_command spawn
start_command-shell row l r plan = refl

pub bind-some : (o : Option Loop) → (o >>= λ l. some l) ≡ o
bind-some none = refl
bind-some (some l) = refl

abbrev pub alone : Command → ℕ → Row
alone c segment = record {
  command = c;
  segment = segment;
  starts = true;
  waitable = not (is_number_pipe_type c.next_type);
}

abbrev pub before : ShellState → Os → Running
before shell os = record { shell = shell; os = os; in_fd = none }

abbrev pub first_loop : Running → Loop
first_loop r = record { running = r; wait_list = []; background_list = [] }
