-- ===== src/Shell/Parse.antt =====
-- shell_core.h: `parseLine` and the tokens that it knows.
pub mod RoundTrip
use network_programming.Base.{
  ℕ, Bool, true, false, not, ◌&&◌, List, [], ◌∷◌, ◌++◌, Option, none, some, Text, codes, text_eq,
  words, is_digit, is_empty, all, stoi, ℤ, pos, negsuc, ◌==◌, if◌then◌else◌,
}
use network_programming.Shell.Command.{
  Command, new_command, NextType, ordinary_pipe, number_pipe_out, number_pipe_both,
}

-- A marker with at least one digit behind it, and nothing else.
unfoldable pub is_number_pipe_token : Text → ℕ → Bool
is_number_pipe_token [] marker = false
is_number_pipe_token (c ∷ digits) marker =
    c == marker && not (is_empty digits) && all is_digit digits

abbrev pub tail : Text → Text
tail [] = []
tail (c ∷ s) = s

-- std::stoi of the digits; `none` is its exception, for a number above the range of int. (Digits
-- alone give no negative number.)
abbrev pub to_count : Option ℤ → Option ℕ
to_count (some (pos n)) = some n
to_count _ = none

unfoldable pub parse_number_pipe_count : Text → Option ℕ
parse_number_pipe_count token = to_count (stoi (tail token))

abbrev pub add_argument : Command → Text → Command
add_argument c token = record c { argv = c.argv ++ token ∷ [] }

abbrev pub redirect_to : Command → Text → Command
redirect_to c file = record c { redirect_stdout = true; redirect_file = file }

-- What a token is to the loop; `counted` has the type and the count of a number pipe.
pub data Token : Type 0 where
  pipe : Token
  counted : NextType → Option ℕ → Token
  redirect : Token
  plain : Token

unfoldable pub classify : Text → Token
unfolding is_number_pipe_token parse_number_pipe_count
classify token =
    if text_eq token (codes "|")
    then pipe
    else if is_number_pipe_token token b'|'
    then counted number_pipe_out (parse_number_pipe_count token)
    else if is_number_pipe_token token b'!'
    then counted number_pipe_both (parse_number_pipe_count token)
    else if text_eq token (codes ">")
    then redirect
    else plain

-- The command is pushed with its pipe; `none` is an exception.
abbrev pub push_counted : List Command → Command → NextType → Option ℕ → Option (List Command)
push_counted commands current next none = none
push_counted commands current next (some count) =
    some (commands ++ record current { next_type = next; next_count = count } ∷ [])

abbrev pub push_last : List Command → Command → List Command
push_last commands current = if is_empty current.argv then commands else commands ++ current ∷ []

-- The loop of `parseLine`: the commands pushed, the current one, and the tokens to come. A `>` at
-- the end of the line is dropped.
unfoldable pub parse_tokens : List Command → Command → List Text → Option (List Command)
parse_tokens commands current [] = some (push_last commands current)
parse_tokens commands current (token ∷ []) = elim (classify token) [
  | pipe ↦ some (commands ++ record current { next_type = ordinary_pipe } ∷ [])
  | counted next count ↦ push_counted commands current next count
  | redirect ↦ some (push_last commands current)
  | plain ↦ some (push_last commands (add_argument current token))
]
parse_tokens commands current (token ∷ file ∷ tokens) = elim (classify token) [
  | pipe ↦
      parse_tokens (commands ++ record current { next_type = ordinary_pipe } ∷ []) new_command
        (file ∷ tokens)
  | counted next count ↦ (elim (push_counted commands current next count) [
    | none ↦ none
    | some pushed ↦ parse_tokens pushed new_command (file ∷ tokens)
  ])
  | redirect ↦ parse_tokens commands (redirect_to current file) tokens
  | plain ↦ parse_tokens commands (add_argument current token) (file ∷ tokens)
]

unfoldable pub parse_line : Text → Option (List Command)
unfolding parse_tokens classify
parse_line line = parse_tokens [] new_command (words line)
