-- ===== src/Shell/Tests.antt =====
-- Runs of the shell's parser and plan, and each theorem at an input that meets its hypotheses.
use network_programming.Base.{
  arith, to_string, true, false, List, [], ◌∷◌, ◌++◌, none, some, Text, codes, ◌≡◌, refl, stoi,
}
use network_programming.Shell.Command.{
  Command, new_command, number_pipe_out, ordinary_pipe, is_number_pipe_type,
}
use network_programming.Shell.Parse.RoundTrip.{
  Written, by_pipe, out_after, commands_of, parse_line-tokens_of,
}
use network_programming.Shell.Parse.{classify, parse_line}
use network_programming.Shell.Plan.Laws.{build_waitability-waits, IsPlan, build_line_plan-IsPlan}
use network_programming.Shell.Plan.{build_waitability, build_line_plan}

abbrev line : Text
line = codes "ls -l | cat > a.txt |2 number"

abbrev written_commands : List Written
unfolding classify stoi
written_commands =
    record {
      arguments = codes "ls" ∷ codes "-l" ∷ [];
      are_plain = ((refl, refl), ((refl, refl), tt));
      file = none;
      ending = by_pipe;
    }
    ∷ record {
      arguments = codes "cat" ∷ [];
      are_plain = ((refl, refl), tt);
      file = some (codes "a.txt");
      ending = out_after 2 (omega arith);
    }
    ∷ []

parse_line-tokens_of_example :
    parse_line line
    ≡ some (
        record new_command { argv = codes "ls" ∷ codes "-l" ∷ []; next_type = ordinary_pipe }
        ∷ record {
          argv = codes "cat" ∷ [];
          next_type = number_pipe_out;
          next_count = 2;
          redirect_stdout = true;
          redirect_file = codes "a.txt";
        }
        ∷ record new_command { argv = codes "number" ∷ [] }
        ∷ [])
unfolding to_string written_commands
parse_line-tokens_of_example =
    parse_line-tokens_of line written_commands (codes "number" ∷ []) none ((refl, refl), tt) refl

abbrev commands : List Command
unfolding classify stoi
commands = commands_of written_commands ++ record new_command { argv = codes "number" ∷ [] } ∷ []

build_waitability-waits_example : build_waitability commands ≡ false ∷ false ∷ true ∷ []
unfolding classify stoi is_number_pipe_type
build_waitability-waits_example = build_waitability-waits commands

build_line_plan-IsPlan_example : IsPlan false 3 commands (build_line_plan 3 commands)
build_line_plan-IsPlan_example = build_line_plan-IsPlan 3 commands
