-- ===== src/Rwg/Parse/Tests.antt =====
-- A line between two pipes to users.
use network_programming.Base.{[], ◌∷◌, some, Text, codes, words, stoi, ◌≡◌, refl}
use network_programming.Rwg.Parse.{is_user_pipe_token, no_request, parse_commands}
use network_programming.Rwg.Parse.Plain.{parse_commands-without_user_pipes}
use network_programming.Rwg.Parse.Marks.{shell_words, last_asked}
use network_programming.Rwg.Parse.Tokens.{both}
use network_programming.Shell.Command.{new_command, ordinary_pipe, number_pipe_out}
use network_programming.Shell.Parse
use network_programming.ShellCore.Token.{is_number_pipe_token, parse_number_pipe_count}

abbrev line : Text
line = codes "cat <2 | number >3"

parse_commands-without_user_pipes_example :
    parse_commands line
    ≡ both
        (Parse.parse_tokens [] new_command (shell_words (words line)))
        (last_asked (words line) no_request)
parse_commands-without_user_pipes_example = parse_commands-without_user_pipes line refl

-- The first command is piped to the second one, the input comes from user 2, and the output goes to
-- user 3. The count of a number pipe may be a sum.
parsed :
    parse_commands (codes "cat <2 | number >3 |1+2")
    ≡ some (
      record new_command { argv = codes "cat" ∷ []; next_type = ordinary_pipe }
          ∷ record new_command {
            argv = codes "number" ∷ [];
            next_type = number_pipe_out;
            next_count = 3;
          }
          ∷ [],
      record { input_from = some 2; output_to = some 3 },
    )
unfolding parse_commands is_number_pipe_token parse_number_pipe_count stoi is_user_pipe_token
parsed = refl
