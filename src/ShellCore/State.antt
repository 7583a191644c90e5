-- ===== src/ShellCore/State.antt =====
-- shell_core.h of project 2: the state of a shell, its numbered pipes, and `executeShellBuiltin`.
use network_programming.Base.{
  ℕ, ◌+◌, List, [], ◌∷◌, ◌++◌, Option, none, some, Text, codes, text_eq, ◌==◌, if◌then◌else◌,
}
use network_programming.Shell.Command.{Command}
use network_programming.ShellCore.Os.{Os, PipeFd, close_pipe}

-- An unordered_map from segments to pipes is an association list.
abbrev pub Pipes : Type 0
Pipes = List (ℕ × PipeFd)

pub record ShellState : Type 0 where
  pub numbered_pipes : Pipes
  pub executed_segments : ℕ
  pub env : List (Text × Text)

abbrev pub new_shell : ShellState
new_shell = record {
  numbered_pipes = [];
  executed_segments = 0;
  env = (codes "PATH", codes "bin:.") ∷ [];
}

-- numberedPipes.find
unfoldable pub pipe_at : ℕ → Pipes → Option PipeFd
pipe_at segment [] = none
pipe_at segment ((s, p) ∷ ps) =
    let later = pipe_at segment ps in if s == segment then some p else later

-- numberedPipes.erase, of the element that `find` gave
unfoldable pub without : ℕ → Pipes → Pipes
without segment [] = []
without segment ((s, p) ∷ ps) =
    let rest = without segment ps in if s == segment then ps else (s, p) ∷ rest

abbrev pub discard : Option PipeFd → ℕ → ShellState → Os → ShellState × Os
discard none segment state os = (state, os)
discard (some p) segment state os =
    (record state { numbered_pipes = without segment state.numbered_pipes }, close_pipe p os)

unfoldable pub discard_incoming_pipe : ℕ → ShellState → Os → ShellState × Os
discard_incoming_pipe segment state os =
    discard (pipe_at segment state.numbered_pipes) segment state os

unfoldable pub close_pipes : Pipes → Os → Os
close_pipes [] os = os
close_pipes ((_, p) ∷ ps) os = close_pipes ps (close_pipe p os)

unfoldable pub close_shell_state : ShellState → Os → ShellState × Os
unfolding close_pipes
close_shell_state state os =
    (record state { numbered_pipes = [] }, close_pipes state.numbered_pipes os)

-- The text that a variable has; std::map has one entry for a name.
unfoldable pub get_env : List (Text × Text) → Text → Option Text
get_env [] name = none
get_env ((n, v) ∷ env) name =
    let later = get_env env name in if text_eq n name then some v else later

unfoldable pub set_env : List (Text × Text) → Text → Text → List (Text × Text)
set_env [] name value = (name, value) ∷ []
set_env ((n, v) ∷ env) name value =
    let later = set_env env name value in
    if text_eq n name then (name, value) ∷ env else (n, v) ∷ later

abbrev pub after_builtin : ShellState × Os → ShellState × Os
after_builtin (state, os) = (record state { executed_segments = state.executed_segments + 1 }, os)

abbrev pub end_builtin : ShellState → Os → ShellState × Os
end_builtin state os = after_builtin (discard_incoming_pipe (state.executed_segments + 1) state os)

abbrev pub print_value : Option Text → Text
print_value none = []
print_value (some value) = value ++ b'\n' ∷ []

set_variable : List Text → ShellState → ShellState
set_variable (name ∷ value ∷ more) state = record state { env = set_env state.env name value }
set_variable _ state = state

print_variable : List Text → ShellState → Text
print_variable (name ∷ more) state = print_value (get_env state.env name)
print_variable [] state = []

builtin : List Text → ShellState → Os → Option ((ShellState × Os) × Text)
unfolding set_variable print_variable
builtin [] state os = none
builtin (name ∷ arguments) state os =
    if text_eq name (codes "setenv")
    then some (end_builtin (set_variable arguments state) os, [])
    else if text_eq name (codes "printenv")
    then some (end_builtin state os, print_variable arguments state)
    else none

-- The state after a built-in command, and what is written to `outputFd`; `none` is `false`.
unfoldable pub execute_shell_builtin : Command → ShellState → Os → Option ((ShellState × Os) × Text)
unfolding builtin
execute_shell_builtin command state os = builtin command.argv state os
