-- ===== src/Rwg/Parse/Tokens.antt =====
-- What project 1 does with the tokens of project 2 that have no plus sign.
use network_programming.Base.{
  ℕ, Bool, true, false, List, [], ◌∷◌, ◌++◌, Option, none, some, Text, codes, text_eq, free_of,
  stoi, if◌then◌else◌, ◌>>=◌, ◌≡◌, refl, arith, Bool-cases, inl, inr,
}
use network_programming.Rwg.Parse.{
  Token, pipe, counted, redirect, user_input, user_output, plain, classify, is_redirect,
  is_user_pipe_token,
}
use network_programming.Rwg.Pipes.{UserPipeRequest}
use network_programming.Shell.Command.{Command, new_command, NextType, ordinary_pipe}
use network_programming.Shell.Parse
use network_programming.Shell.Parse.{
  tail, to_count, push_counted, push_last, add_argument, redirect_to,
}
use network_programming.ShellCore.Token.Plain.{
  is_number_pipe_token-plain, parse_number_pipe_count-plain,
}

-- What project 1 knows of a token.
abbrev pub shell_token : Token → Parse.Token
shell_token pipe = Parse.pipe
shell_token (counted next count) = Parse.counted next count
shell_token redirect = Parse.redirect
shell_token _ = Parse.plain

pub classify-shell_token :
    (t : Text) → free_of b'+' t ≡ true → Parse.classify t ≡ shell_token (classify t)
unfolding classify Parse.classify
classify-shell_token t h =
    rw (is_number_pipe_token-plain t b'|' h, is_number_pipe_token-plain t b'!' h)
      (elim (Bool-cases (text_eq t (codes "|"))) [
        | inl bar ↦ rw (bar) refl
        | inr no_bar ↦ elim (Bool-cases (Parse.is_number_pipe_token t b'|')) [
          | inl out ↦ rw (no_bar, out, parse_number_pipe_count-plain t b'|' h out) refl
          | inr no_out ↦ elim (Bool-cases (Parse.is_number_pipe_token t b'!')) [
            | inl error ↦
                rw (no_bar, no_out, error, parse_number_pipe_count-plain t b'!' h error) refl
            | inr no_error ↦ rw (no_bar, no_out, no_error) (later t)
          ]
        ]
      ])
  where
    later :
        (u : Text)
        → (if text_eq u (codes ">") then Parse.redirect else Parse.plain)
          ≡ shell_token (
              if text_eq u (codes ">")
              then redirect
              else if is_user_pipe_token u b'<'
              then user_input (to_count (stoi (tail u)))
              else if is_user_pipe_token u b'>'
              then user_output (to_count (stoi (tail u)))
              else plain)
    later u = ground arith

abbrev pub is_user : Token → Bool
is_user (user_input id) = true
is_user (user_output id) = true
is_user _ = false

-- The words that are no pipe from or to a user; a word behind `>` is a file.
abbrev pub without_user_pipes : List Text → List Text
without_user_pipes [] = []
without_user_pipes (t ∷ []) = if is_user (classify t) then [] else t ∷ []
without_user_pipes (t ∷ file ∷ ts) =
    let behind_file = without_user_pipes ts in
    let rest = without_user_pipes (file ∷ ts) in
    if is_redirect (classify t)
    then t ∷ file ∷ behind_file
    else if is_user (classify t)
    then rest
    else t ∷ rest

abbrev pub request_of : Token → UserPipeRequest → Option UserPipeRequest
request_of (user_input none) r = none
request_of (user_input (some id)) r = some (record r { input_from = some id })
request_of (user_output none) r = none
request_of (user_output (some id)) r = some (record r { output_to = some id })
request_of _ r = some r

-- The last pipe from a user and the last pipe to one.
abbrev pub user_pipes : List Text → UserPipeRequest → Option UserPipeRequest
user_pipes [] r = some r
user_pipes (t ∷ []) r = request_of (classify t) r
user_pipes (t ∷ file ∷ ts) r =
    let behind_file = user_pipes ts r in
    let rest = request_of (classify t) r >>= user_pipes (file ∷ ts) in
    if is_redirect (classify t) then behind_file else rest

abbrev pub Result : Type 0
Result = Option (List Command × UserPipeRequest)

abbrev pub both : Option (List Command) → Option UserPipeRequest → Result
both (some commands) (some request) = some (commands, request)
both _ _ = none

pub both-none : (o : Option (List Command)) → both o none ≡ none
both-none none = refl
both-none (some commands) = refl

pub next-pipe :
    (commands : List Command) (current : Command) (t : Text) (rest : List Text)
    → Parse.classify t ≡ Parse.pipe
    → Parse.parse_tokens commands current (t ∷ rest)
      ≡ Parse.parse_tokens
          (commands ++ record current { next_type = ordinary_pipe } ∷ [])
          new_command
          rest
unfolding Parse.parse_tokens
next-pipe commands current t [] h = ground arith
next-pipe commands current t (file ∷ rest) h = ground arith

pub next-plain :
    (commands : List Command) (current : Command) (t : Text) (rest : List Text)
    → Parse.classify t ≡ Parse.plain
    → Parse.parse_tokens commands current (t ∷ rest)
      ≡ Parse.parse_tokens commands (add_argument current t) rest
unfolding Parse.parse_tokens
next-plain commands current t [] h = ground arith
next-plain commands current t (file ∷ rest) h = ground arith

pub next-counted :
    (commands : List Command) (current : Command) (t : Text) (rest : List Text) (next : NextType)
    (count : Option ℕ)
    → Parse.classify t ≡ Parse.counted next count
    → Parse.parse_tokens commands current (t ∷ rest) ≡ (
        push_counted commands current next count >>= λ pushed.
        Parse.parse_tokens pushed new_command rest)
unfolding Parse.parse_tokens
next-counted commands current t [] next none h = ground arith
next-counted commands current t [] next (some n) h = ground arith
next-counted commands current t (file ∷ rest) next none h = ground arith
next-counted commands current t (file ∷ rest) next (some n) h = ground arith

pub next-redirect :
    (commands : List Command) (current : Command) (t file : Text) (rest : List Text)
    → Parse.classify t ≡ Parse.redirect
    → Parse.parse_tokens commands current (t ∷ file ∷ rest)
      ≡ Parse.parse_tokens commands (redirect_to current file) rest
unfolding Parse.parse_tokens
next-redirect commands current t file rest h = ground arith

pub last-redirect :
    (commands : List Command) (current : Command) (t : Text)
    → Parse.classify t ≡ Parse.redirect
    → Parse.parse_tokens commands current (t ∷ []) ≡ some (push_last commands current)
unfolding Parse.parse_tokens
last-redirect commands current t h = ground arith
