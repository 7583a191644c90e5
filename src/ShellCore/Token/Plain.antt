-- ===== src/ShellCore/Token/Plain.antt =====
-- A number pipe without a plus sign is one of project 1.
use network_programming.Base.{
  ℕ, ◌+◌, ◌≤◌, Bool, true, false, not, [], ◌∷◌, Option, none, some, Text, is_digit, ltb, split,
  split_go-free_of, stoi, stoi-plain_bound, ℤ, pos, negsuc, if◌then◌else◌, ◌>>=◌, ◌≡◌, refl, arith,
  free_of, is_empty, all, ap, int_max,
}
use network_programming.Shell.Parse
use network_programming.ShellCore.Token.{
  number_tail, is_number_pipe_token, int_bound, bounded, add_terms, parse_number_pipe_count,
}

number_tail-digits :
    (last : Bool) (s : Text)
    → free_of b'+' s ≡ true
    → number_tail last s ≡ (if is_empty s then not last else all is_digit s)
unfolding number_tail
number_tail-digits last [] h = refl
number_tail-digits last (c ∷ []) h = ground arith
number_tail-digits last (c ∷ d ∷ s) h = ground (arith, number_tail-digits false (d ∷ s))

pub is_number_pipe_token-plain :
    (token : Text) (marker : ℕ)
    → free_of b'+' token ≡ true
    → is_number_pipe_token token marker ≡ Parse.is_number_pipe_token token marker
unfolding is_number_pipe_token Parse.is_number_pipe_token
is_number_pipe_token-plain [] marker h = refl
is_number_pipe_token-plain (c ∷ []) marker h = ground arith
is_number_pipe_token-plain (c ∷ d ∷ s) marker h = ground (arith, number_tail-digits true (d ∷ s))

bounded-small :
    (o : Option ℤ)
    → ((n : ℕ) → o ≡ some (pos n) → n ≤ int_max)
    → (Parse.to_count o >>= λ count. bounded (0 + count) >>= λ total. some total) ≡ Parse.to_count o
bounded-small none h = refl
bounded-small (some (negsuc n)) h = refl
bounded-small (some (pos n)) h =
    let small : ltb (0 + n) int_bound ≡ true = ground (arith, h n refl) in
    rw (small) (ap some (omega arith))

pub parse_number_pipe_count-plain :
    (token : Text) (marker : ℕ)
    → free_of b'+' token ≡ true
    → Parse.is_number_pipe_token token marker ≡ true
    → parse_number_pipe_count token ≡ Parse.parse_number_pipe_count token
unfolding parse_number_pipe_count Parse.parse_number_pipe_count Parse.is_number_pipe_token add_terms
parse_number_pipe_count-plain [] marker h k = cc
parse_number_pipe_count-plain (c ∷ []) marker h k = absurd (ground arith)
parse_number_pipe_count-plain (c ∷ d ∷ s) marker h k =
    let one_term : split b'+' (d ∷ s) ≡ (d ∷ s) ∷ [] =
      split_go-free_of b'+' [] (d ∷ s) (ground arith) in
    rw (one_term)
      (bounded-small (stoi (d ∷ s)) (λ n e. stoi-plain_bound (d ∷ s) n (ground arith) e))
