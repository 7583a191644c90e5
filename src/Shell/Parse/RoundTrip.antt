-- ===== src/Shell/Parse/RoundTrip.antt =====
-- A line that is written out from its commands is parsed to the same commands.
use network_programming.Base.{
  ℕ, ◌≤◌, Bool, true, false, not, ◌&&◌, ◌||◌, ◌==◌, text_eq, is_empty, all, is_digit, to_string,
  to_string-plain, stoi-to_string, int_max, List, [], ◌∷◌, ◌++◌, Option, none, some, Text, codes,
  words, ◌≡◌, refl, arith, sym, ap, ◌∙◌, append-nil, append_assoc,
}
use network_programming.Shell.Command.{
  Command, new_command, number_pipe_out, number_pipe_both, ordinary_pipe,
}
use network_programming.Shell.Parse.{
  is_number_pipe_token, parse_number_pipe_count, to_count, pipe, counted, redirect, plain, classify,
  parse_line, parse_tokens, add_argument, redirect_to,
}

-- An argument: it does not begin like a pipe, and is not the sign of a redirection.
abbrev pub begins_pipe : Text → Bool
begins_pipe [] = false
begins_pipe (c ∷ s) = c == b'|' || c == b'!'

abbrev pub IsArgument : Text → Type 0
IsArgument a = (begins_pipe a ≡ false) × (text_eq a (codes ">") ≡ false)

abbrev pub ArePlain : List Text → Type 0
ArePlain [] = Unit {0}
ArePlain (a ∷ args) = IsArgument a × ArePlain args

classify-argument : (a : Text) → IsArgument a → classify a ≡ plain
unfolding classify is_number_pipe_token
classify-argument [] h = refl
classify-argument (c ∷ []) h = ground arith
classify-argument (c ∷ d ∷ s) h = ground arith

-- A command as it is written: its arguments, where its output goes, and the token that ends it.
pub data Ending : Type 0 where
  by_pipe : Ending
  -- |n and !n
  out_after both_after : (n : ℕ) → n ≤ int_max → Ending

pub record Written : Type 0 where
  pub arguments : List Text
  pub are_plain : ArePlain arguments
  pub file : Option Text
  pub ending : Ending

abbrev pub end_token : Ending → Text
end_token by_pipe = codes "|"
end_token (out_after n h) = b'|' ∷ to_string n
end_token (both_after n h) = b'!' ∷ to_string n

abbrev pub file_tokens : Option Text → List Text
file_tokens none = []
file_tokens (some file) = codes ">" ∷ file ∷ []

abbrev with_file : Command → Option Text → Command
with_file c none = c
with_file c (some file) = redirect_to c file

abbrev pub with_ending : Command → Ending → Command
with_ending c by_pipe = record c { next_type = ordinary_pipe }
with_ending c (out_after n h) = record c { next_type = number_pipe_out; next_count = n }
with_ending c (both_after n h) = record c { next_type = number_pipe_both; next_count = n }

abbrev pub command_of : List Text → Option Text → Command
command_of arguments file = with_file (record new_command { argv = arguments }) file

abbrev pub tokens_of : List Written → List Text → Option Text → List Text
tokens_of [] arguments file = arguments ++ file_tokens file
tokens_of (w ∷ ws) arguments file =
    w.arguments ++ (file_tokens w.file ++ (end_token w.ending ∷ tokens_of ws arguments file))

abbrev pub commands_of : List Written → List Command
commands_of [] = []
commands_of (w ∷ ws) = with_ending (command_of w.arguments w.file) w.ending ∷ commands_of ws

parse-plain :
    (commands : List Command) (current : Command) (a : Text) (tokens : List Text)
    → classify a ≡ plain
    → parse_tokens commands current (a ∷ tokens)
      ≡ parse_tokens commands (add_argument current a) tokens
unfolding parse_tokens
parse-plain commands current a [] h = ground arith
parse-plain commands current a (t ∷ tokens) h = ground arith

parse-arguments :
    (commands : List Command) (current : Command) (args tokens : List Text)
    → ArePlain args
    → parse_tokens commands current (args ++ tokens)
      ≡ parse_tokens commands (record current { argv = current.argv ++ args }) tokens
parse-arguments commands current [] tokens h =
    ap (λ (v : List Text). parse_tokens commands (record current { argv = v }) tokens)
      (sym (append-nil current.argv))
parse-arguments commands current (a ∷ args) tokens h =
    parse-plain commands current a (args ++ tokens) (classify-argument a h.0)
    ∙ parse-arguments commands (add_argument current a) args tokens h.1
    ∙ ap (λ (v : List Text). parse_tokens commands (record current { argv = v }) tokens)
        (append_assoc current.argv (a ∷ []) args)

classify-redirect : classify (codes ">") ≡ redirect
unfolding classify
classify-redirect = refl

classify-pipe : classify (codes "|") ≡ pipe
unfolding classify
classify-pipe = refl

parse-file :
    (commands : List Command) (current : Command) (file : Option Text) (tokens : List Text)
    → parse_tokens commands current (file_tokens file ++ tokens)
      ≡ parse_tokens commands (with_file current file) tokens
unfolding parse_tokens
parse-file commands current none tokens = refl
parse-file commands current (some file) tokens = ground (arith, classify-redirect)

is_number_pipe_token-to_string :
    (marker n : ℕ) → is_number_pipe_token (marker ∷ to_string n) marker ≡ true
unfolding is_number_pipe_token
is_number_pipe_token-to_string marker n = ground (arith, to_string-plain n)

not_alone : (c n : ℕ) → text_eq (c ∷ to_string n) (c ∷ []) ≡ false
not_alone c n = go (to_string n) (to_string-plain n)
  where
    go : (s : Text) → (not (is_empty s) && all is_digit s) ≡ true → text_eq (c ∷ s) (c ∷ []) ≡ false
    go [] h = cc
    go (d ∷ s) h = ground arith

parse_number_pipe_count-to_string :
    (marker n : ℕ) → n ≤ int_max → parse_number_pipe_count (marker ∷ to_string n) ≡ some n
unfolding parse_number_pipe_count
parse_number_pipe_count-to_string marker n h = ap to_count (stoi-to_string n h)

classify-out :
    (n : ℕ) → n ≤ int_max → classify (b'|' ∷ to_string n) ≡ counted number_pipe_out (some n)
unfolding classify
classify-out n h =
    rw (not_alone b'|' n, is_number_pipe_token-to_string b'|' n)
      (ap (counted number_pipe_out) (parse_number_pipe_count-to_string b'|' n h))

classify-both :
    (n : ℕ) → n ≤ int_max → classify (b'!' ∷ to_string n) ≡ counted number_pipe_both (some n)
unfolding classify
classify-both n h =
    rw (is_number_pipe_token-to_string b'!' n)
      (ap (counted number_pipe_both) (parse_number_pipe_count-to_string b'!' n h))

parse-ending :
    (commands : List Command) (current : Command) (e : Ending) (tokens : List Text)
    → parse_tokens commands current (end_token e ∷ tokens)
      ≡ parse_tokens (commands ++ with_ending current e ∷ []) new_command tokens
unfolding parse_tokens
parse-ending commands current by_pipe [] = ground (arith, classify-pipe)
parse-ending commands current by_pipe (t ∷ tokens) = ground (arith, classify-pipe)
parse-ending commands current (out_after n h) [] = ground (arith, classify-out n h)
parse-ending commands current (out_after n h) (t ∷ tokens) = ground (arith, classify-out n h)
parse-ending commands current (both_after n h) [] = ground (arith, classify-both n h)
parse-ending commands current (both_after n h) (t ∷ tokens) = ground (arith, classify-both n h)

-- What is left of the line after its last pipe: a command, if it has an argument.
abbrev pub last_of : List Text → Option Text → List Command
last_of [] file = []
last_of (a ∷ arguments) file = command_of (a ∷ arguments) file ∷ []

parse-last :
    (commands : List Command) (arguments : List Text) (file : Option Text)
    → ArePlain arguments
    → parse_tokens commands new_command (arguments ++ file_tokens file)
      ≡ some (commands ++ last_of arguments file)
parse-last commands arguments file h =
    parse-arguments commands new_command arguments (file_tokens file) h
    ∙ ap (parse_tokens commands (record new_command { argv = arguments }))
        (sym (append-nil (file_tokens file)))
    ∙ parse-file commands (record new_command { argv = arguments }) file []
    ∙ pushed arguments file
  where
    pushed :
        (arguments : List Text) (file : Option Text)
        → parse_tokens commands (with_file (record new_command { argv = arguments }) file) []
          ≡ some (commands ++ last_of arguments file)
    pushed [] none = unfold parse_tokens in ap some (sym (append-nil commands))
    pushed [] (some f) = unfold parse_tokens in ap some (sym (append-nil commands))
    pushed (a ∷ as') none = unfold parse_tokens in refl
    pushed (a ∷ as') (some f) = unfold parse_tokens in refl

parse-tokens_of :
    (commands : List Command) (ws : List Written) (arguments : List Text) (file : Option Text)
    → ArePlain arguments
    → parse_tokens commands new_command (tokens_of ws arguments file)
      ≡ some (commands ++ (commands_of ws ++ last_of arguments file))
parse-tokens_of commands [] arguments file h = parse-last commands arguments file h
parse-tokens_of commands (w ∷ ws) arguments file h =
    let c = command_of w.arguments w.file in
    let behind = end_token w.ending ∷ tokens_of ws arguments file in
    parse-arguments commands new_command w.arguments (file_tokens w.file ++ behind) w.are_plain
    ∙ parse-file commands (record new_command { argv = w.arguments }) w.file behind
    ∙ parse-ending commands c w.ending (tokens_of ws arguments file)
    ∙ parse-tokens_of (commands ++ with_ending c w.ending ∷ []) ws arguments file h
    ∙ ap some (
        append_assoc commands (with_ending c w.ending ∷ [])
          (commands_of ws ++ last_of arguments file))

-- A line whose words are those of some commands, each with arguments that do not begin with | or !
-- and are not >, perhaps a redirection, and behind it |, |n or !n with a printed number in the range
-- of int, followed by the arguments and redirection of a last command, is parsed to these commands in
-- order, the count of each its number, and to the last one exactly if it has an argument.
pub parse_line-tokens_of :
    (line : Text) (ws : List Written) (arguments : List Text) (file : Option Text)
    → ArePlain arguments
    → words line ≡ tokens_of ws arguments file
    → parse_line line ≡ some (commands_of ws ++ last_of arguments file)
unfolding parse_line
parse_line-tokens_of line ws arguments file h e =
    ap (parse_tokens [] new_command) e ∙ parse-tokens_of [] ws arguments file h
