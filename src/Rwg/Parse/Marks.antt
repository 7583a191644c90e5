-- ===== src/Rwg/Parse/Marks.antt =====
-- Which words of a line of project 2 are pipes from and to users, read from their bytes alone.
use network_programming.Base.{
  ℕ, Bool, false, not, ◌&&◌, ◌||◌, List, [], ◌∷◌, Option, none, some, Text, codes, text_eq,
  is_empty, all, is_digit, stoi, ◌==◌, if◌then◌else◌, ◌>>=◌, ◌≡◌, refl, arith,
}
use network_programming.Rwg.Parse.{classify, is_redirect, is_user_pipe_token}
use network_programming.Rwg.Parse.Tokens.{is_user, request_of, without_user_pipes, user_pipes}
use network_programming.Rwg.Pipes.{UserPipeRequest}
use network_programming.Shell.Parse.{tail, to_count}
use network_programming.ShellCore.Token.{is_number_pipe_token}

-- The mark and behind it digits, at least one.
abbrev pub marked : ℕ → Text → Bool
marked mark [] = false
marked mark (c ∷ digits) = c == mark && (not (is_empty digits) && all is_digit digits)

abbrev pub set_input : Option ℕ → UserPipeRequest → Option UserPipeRequest
set_input none r = none
set_input (some id) r = some (record r { input_from = some id })

abbrev pub set_output : Option ℕ → UserPipeRequest → Option UserPipeRequest
set_output none r = none
set_output (some id) r = some (record r { output_to = some id })

-- <n asks for a pipe from user n, >n for one to user n.
abbrev pub asked : Text → UserPipeRequest → Option UserPipeRequest
asked t r =
    if marked b'<' t
    then set_input (to_count (stoi (tail t))) r
    else if marked b'>' t
    then set_output (to_count (stoi (tail t))) r
    else some r

abbrev pub takes_file : Text → Bool
takes_file t = text_eq t (codes ">")

-- The words that are neither <n nor >n; a word behind > is a file.
abbrev pub shell_words : List Text → List Text
shell_words [] = []
shell_words (t ∷ []) = if marked b'<' t || marked b'>' t then [] else t ∷ []
shell_words (t ∷ file ∷ ts) =
    let behind_file = shell_words ts in
    let rest = shell_words (file ∷ ts) in
    if takes_file t
    then t ∷ file ∷ behind_file
    else if marked b'<' t || marked b'>' t
    then rest
    else t ∷ rest

-- The last <n and the last >n.
abbrev pub last_asked : List Text → UserPipeRequest → Option UserPipeRequest
last_asked [] r = some r
last_asked (t ∷ []) r = asked t r
last_asked (t ∷ file ∷ ts) r =
    let behind_file = last_asked ts r in
    let rest = asked t r >>= last_asked (file ∷ ts) in if takes_file t then behind_file else rest

-- What the loop makes of a word.
record Reads (t : Text) : Type 0 where
  file : is_redirect (classify t) ≡ takes_file t
  user : is_user (classify t) ≡ (marked b'<' t || marked b'>' t)
  request : (r : UserPipeRequest) → request_of (classify t) r ≡ asked t r

marks_apart : (c : ℕ) (s : Text) → Reads (c ∷ s)
unfolding classify is_number_pipe_token is_user_pipe_token
marks_apart c [] = record { file = ground arith; user = ground arith; request = λ r. ground arith }
marks_apart c (d ∷ s) = record {
  file = ground arith;
  user = ground arith;
  request = λ r. ground arith;
}

reads : (t : Text) → Reads t
unfolding classify is_number_pipe_token is_user_pipe_token
reads [] = record { file = refl; user = refl; request = λ r. refl }
reads (c ∷ s) = marks_apart c s

pub without_user_pipes-shell_words : (ts : List Text) → without_user_pipes ts ≡ shell_words ts
without_user_pipes-shell_words [] = refl
without_user_pipes-shell_words (t ∷ []) = rw ((reads t).user) refl
without_user_pipes-shell_words (t ∷ file ∷ ts) = λ i.
    if (reads t).file i
    then t ∷ file ∷ without_user_pipes-shell_words ts i
    else if (reads t).user i
    then without_user_pipes-shell_words (file ∷ ts) i
    else t ∷ without_user_pipes-shell_words (file ∷ ts) i

pub user_pipes-last_asked :
    (ts : List Text) (r : UserPipeRequest) → user_pipes ts r ≡ last_asked ts r
user_pipes-last_asked [] r = refl
user_pipes-last_asked (t ∷ []) r = (reads t).request r
user_pipes-last_asked (t ∷ file ∷ ts) r = λ i.
    if (reads t).file i
    then user_pipes-last_asked ts r i
    else (reads t).request r i >>= λ q. user_pipes-last_asked (file ∷ ts) q i
