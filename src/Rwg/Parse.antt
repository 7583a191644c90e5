-- ===== src/Rwg/Parse.antt =====
-- np_single_proc.cpp: `parseCommands`, which reads the commands of a line and the pipes from and to
-- other users that stand between them.
pub mod Tokens
pub mod Marks
pub mod Plain
mod Tests
use network_programming.Base.{
  ℕ, Bool, true, false, not, ◌&&◌, List, [], ◌∷◌, ◌++◌, Option, none, some, Text, codes, text_eq,
  words, is_digit, is_empty, all, stoi, ◌==◌, if◌then◌else◌, ◌>>=◌,
}
use network_programming.Rwg.Pipes.{UserPipeRequest}
use network_programming.Shell.Command.{
  Command, new_command, NextType, ordinary_pipe, number_pipe_out, number_pipe_both,
}
use network_programming.Shell.Parse.{
  tail, to_count, add_argument, redirect_to, push_counted, push_last,
}
use network_programming.ShellCore.Token.{is_number_pipe_token, parse_number_pipe_count}

abbrev pub is_digits_only : Text → Bool
is_digits_only value = not (is_empty value) && all is_digit value

-- `isDigitsOnly(token, 1)` reads from the second byte on.
unfoldable pub is_user_pipe_token : Text → ℕ → Bool
is_user_pipe_token [] marker = false
is_user_pipe_token (c ∷ digits) marker = c == marker && is_digits_only digits

-- What a token is to the loop, with its number; `none` is an exception of std::stoi.
pub data Token : Type 0 where
  pipe : Token
  counted : NextType → Option ℕ → Token
  redirect : Token
  user_input user_output : Option ℕ → Token
  plain : Token

unfoldable pub classify : Text → Token
classify token =
    if text_eq token (codes "|")
    then pipe
    else if is_number_pipe_token token b'|'
    then counted number_pipe_out (parse_number_pipe_count token)
    else if is_number_pipe_token token b'!'
    then counted number_pipe_both (parse_number_pipe_count token)
    else if text_eq token (codes ">")
    then redirect
    else if is_user_pipe_token token b'<'
    then user_input (to_count (stoi (tail token)))
    else if is_user_pipe_token token b'>'
    then user_output (to_count (stoi (tail token)))
    else plain

abbrev pub no_request : UserPipeRequest
no_request = record { input_from = none; output_to = none }

-- The variables of the loop.
pub record Parsing : Type 0 where
  pub commands : List Command
  pub current : Command
  pub request : UserPipeRequest

abbrev pub push : Option (List Command) → UserPipeRequest → Option Parsing
push none request = none
push (some commands) request =
    some (record { commands = commands; current = new_command; request = request })

abbrev pub read_from : Option ℕ → Parsing → Option Parsing
read_from none p = none
read_from (some id) p = some (record p { request = record p.request { input_from = some id } })

abbrev pub write_to : Option ℕ → Parsing → Option Parsing
write_to none p = none
write_to (some id) p = some (record p { request = record p.request { output_to = some id } })

-- A token that is no redirection.
abbrev pub take_token : Token → Text → Parsing → Option Parsing
take_token pipe token p =
    push (some (p.commands ++ record p.current { next_type = ordinary_pipe } ∷ [])) p.request
take_token (counted next count) token p =
    push (push_counted p.commands p.current next count) p.request
take_token (user_input id) token p = read_from id p
take_token (user_output id) token p = write_to id p
take_token _ token p = some (record p { current = add_argument p.current token })

abbrev pub is_redirect : Token → Bool
is_redirect redirect = true
is_redirect _ = false

unfoldable pub parse_tokens : List Text → Parsing → Option Parsing
parse_tokens [] p = some p
parse_tokens (token ∷ []) p =
    if is_redirect (classify token) then some p else take_token (classify token) token p
parse_tokens (token ∷ file ∷ tokens) p = do
  let redirected = parse_tokens tokens (record p { current = redirect_to p.current file })
  let others = take_token (classify token) token p >>= parse_tokens (file ∷ tokens)
  if is_redirect (classify token) then redirected else others

abbrev pub finished : Parsing → List Command × UserPipeRequest
finished p = (push_last p.commands p.current, p.request)

unfoldable pub parse_commands : Text → Option (List Command × UserPipeRequest)
unfolding parse_tokens classify
parse_commands line = do
  p ←
      parse_tokens (words line)
        (record { commands = []; current = new_command; request = no_request })
  some (finished p)
