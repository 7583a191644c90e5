-- ===== src/Rwg/Parse/Plain.antt =====
-- The commands of a line are those that project 1 reads from the words behind the pipes to users.
use network_programming.Base.{
  true, false, List, [], ◌∷◌, Option, none, some, Text, words, all, free_of, if◌then◌else◌, ◌>>=◌,
  ◌≡◌, refl, arith, Bool-cases, inl, inr, ap, ◌∙◌, sym,
}
use network_programming.Rwg.Parse.{
  Token, pipe, counted, redirect, user_input, user_output, plain, classify, Parsing, take_token,
  is_redirect, parse_tokens, finished, parse_commands, no_request,
}
use network_programming.Rwg.Pipes.{UserPipeRequest}
use network_programming.Shell.Command.{new_command}
use network_programming.Shell.Parse
use network_programming.Shell.Parse.{
  tail, to_count, push_counted, push_last, add_argument, redirect_to,
}
use network_programming.Rwg.Parse.Marks.{
  shell_words, last_asked, without_user_pipes-shell_words, user_pipes-last_asked,
}
use network_programming.Rwg.Parse.Tokens.{
  shell_token, classify-shell_token, is_user, without_user_pipes, request_of, user_pipes, Result,
  both, both-none, next-pipe, next-plain, next-counted, next-redirect, last-redirect,
}

-- One token that is no redirection, before words that are read as `pipes` and `stripped` say.
token-both :
    (k : Token) (t : Text) (stripped : List Text) (pipes : UserPipeRequest → Option UserPipeRequest)
    (next : Parsing → Result) (p : Parsing)
    → is_redirect k ≡ false
    → Parse.classify t ≡ shell_token k
    → ((q : Parsing)
        → next q ≡ both (Parse.parse_tokens q.commands q.current stripped) (pipes q.request))
    → (take_token k t p >>= next)
      ≡ both
          (Parse.parse_tokens p.commands p.current (if is_user k then stripped else t ∷ stripped))
          (request_of k p.request >>= pipes)
token-both pipe t stripped pipes next p n c h =
    h _ ∙ ap (λ o. both o (pipes p.request)) (sym (next-pipe p.commands p.current t stripped c))
token-both (counted kind none) t stripped pipes next p n c h =
    ap (λ o. both o (pipes p.request))
      (sym (next-counted p.commands p.current t stripped kind none c))
token-both (counted kind (some count)) t stripped pipes next p n c h =
    h _
    ∙ ap (λ o. both o (pipes p.request))
        (sym (next-counted p.commands p.current t stripped kind (some count) c))
token-both redirect t stripped pipes next p n c h = cc
token-both (user_input none) t stripped pipes next p n c h = sym (both-none _)
token-both (user_input (some id)) t stripped pipes next p n c h = h _
token-both (user_output none) t stripped pipes next p n c h = sym (both-none _)
token-both (user_output (some id)) t stripped pipes next p n c h = h _
token-both plain t stripped pipes next p n c h =
    h _ ∙ ap (λ o. both o (pipes p.request)) (sym (next-plain p.commands p.current t stripped c))

abbrev result : Option Parsing → Result
result o = o >>= λ p. some (finished p)

result-bind :
    (o : Option Parsing) (next : Parsing → Option Parsing)
    → result (o >>= next) ≡ (o >>= λ p. result (next p))
result-bind none next = refl
result-bind (some p) next = refl

is_redirect-is_user : (k : Token) → is_redirect k ≡ true → (k ≡ redirect) × (is_user k ≡ false)
is_redirect-is_user redirect h = (refl, refl)
is_redirect-is_user pipe h = cc
is_redirect-is_user (counted next count) h = cc
is_redirect-is_user (user_input id) h = cc
is_redirect-is_user (user_output id) h = cc
is_redirect-is_user plain h = cc

unread :
    (p : Parsing)
    → result (some p) ≡ both (Parse.parse_tokens p.commands p.current []) (some p.request)
unfolding Parse.parse_tokens
unread p = refl

bind-some : (o : Option UserPipeRequest) → (o >>= λ r. some r) ≡ o
bind-some none = refl
bind-some (some r) = refl

alone :
    (k : Token) (t : Text) (p : Parsing)
    → is_redirect k ≡ false
    → Parse.classify t ≡ shell_token k
    → result (take_token k t p)
      ≡ both
          (Parse.parse_tokens p.commands p.current (if is_user k then [] else t ∷ []))
          (request_of k p.request)
alone k t p n c =
    token-both k t [] (λ r. some r) (λ q. result (some q)) p n c unread
    ∙ ap (both (Parse.parse_tokens p.commands p.current (if is_user k then [] else t ∷ [])))
        (bind-some (request_of k p.request))

last_token-both :
    (k : Token) (t : Text) (p : Parsing)
    → Parse.classify t ≡ shell_token k
    → result (if is_redirect k then some p else take_token k t p)
      ≡ both
          (Parse.parse_tokens p.commands p.current (if is_user k then [] else t ∷ []))
          (request_of k p.request)
last_token-both redirect t p c =
    ap (λ o. both o (some p.request)) (sym (last-redirect p.commands p.current t c))
last_token-both pipe t p c = alone pipe t p refl c
last_token-both (counted kind count) t p c = alone (counted kind count) t p refl c
last_token-both (user_input none) t p c = alone (user_input none) t p refl c
last_token-both (user_input (some id)) t p c = alone (user_input (some id)) t p refl c
last_token-both (user_output none) t p c = alone (user_output none) t p refl c
last_token-both (user_output (some id)) t p c = alone (user_output (some id)) t p refl c
last_token-both plain t p c = alone plain t p refl c

tokens-both :
    (ts : List Text) (p : Parsing)
    → all (free_of b'+') ts ≡ true
    → result (parse_tokens ts p)
      ≡ both
          (Parse.parse_tokens p.commands p.current (without_user_pipes ts))
          (user_pipes ts p.request)
unfolding parse_tokens Parse.parse_tokens
tokens-both [] p h = refl
tokens-both (t ∷ []) p h = last_token-both (classify t) t p (classify-shell_token t (ground arith))
tokens-both (t ∷ file ∷ ts) p h = elim (Bool-cases (is_redirect (classify t))) [
  | inl file_next ↦
      let e = (is_redirect-is_user (classify t) file_next).0 in
      let c : Parse.classify t ≡ Parse.redirect =
        classify-shell_token t (ground arith) ∙ ap shell_token e in
      rw (file_next) (
        tokens-both ts (record p { current = redirect_to p.current file }) (ground arith)
        ∙ ap (λ o. both o (user_pipes ts p.request))
            (sym (next-redirect p.commands p.current t file (without_user_pipes ts) c)))
  | inr other ↦ rw (other) (
      result-bind (take_token (classify t) t p) (parse_tokens (file ∷ ts))
      ∙ token-both (classify t) t (without_user_pipes (file ∷ ts)) (user_pipes (file ∷ ts))
          (λ q. result (parse_tokens (file ∷ ts) q)) p other (classify-shell_token t (ground arith))
          (λ q. tokens-both (file ∷ ts) q (ground arith)))
]

-- In a line without a plus sign in its words, the commands are those that project 1 reads from the
-- words that are neither < nor > with digits behind it; the request is made of the last < with digits
-- and the last > with digits, the one for input and the other for output; and a number that std::stoi
-- refuses anywhere is an exception. A word behind a lone > is a file and counts for nothing here.
pub parse_commands-without_user_pipes :
    (line : Text)
    → all (free_of b'+') (words line) ≡ true
    → parse_commands line
      ≡ both
          (Parse.parse_tokens [] new_command (shell_words (words line)))
          (last_asked (words line) no_request)
unfolding parse_commands
parse_commands-without_user_pipes line h =
    tokens-both (words line) (record { commands = []; current = new_command; request = no_request })
      h
    ∙ λ i.
        both (Parse.parse_tokens [] new_command (without_user_pipes-shell_words (words line) i))
          (user_pipes-last_asked (words line) no_request i)
