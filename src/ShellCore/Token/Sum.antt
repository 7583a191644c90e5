-- ===== src/ShellCore/Token/Sum.antt =====
-- The number pipes of project 2, whose count is a sum.
use network_programming.Base.{
  ℕ, ◌+◌, ◌<◌, sym, append-nil, Bool, true, false, not, ◌&&◌, List, [], ◌∷◌, ◌++◌, some, Text,
  is_digit, ltb, split, split_go-append, split_go-free_of, to_string, to_string-digits,
  to_string-plain, stoi-to_string, ◌≡◌, refl, arith, free_of, is_empty, all, ap, ◌∙◌,
}
use network_programming.ShellCore.Token.{
  number_tail, is_number_pipe_token, int_bound, add_terms, parse_number_pipe_count,
}

-- Numbers with plus signs between them.
abbrev pub sum_text : ℕ → List ℕ → Text
sum_text n [] = to_string n
sum_text n (m ∷ ms) = to_string n ++ b'+' ∷ sum_text m ms

abbrev pub sum : List ℕ → ℕ
sum [] = 0
sum (n ∷ ns) = n + sum ns

abbrev texts : List ℕ → List Text
texts [] = []
texts (n ∷ ns) = to_string n ∷ texts ns

free_of-digits : (s : Text) → all is_digit s ≡ true → free_of b'+' s ≡ true
free_of-digits [] h = refl
free_of-digits (c ∷ s) h = ground (arith, free_of-digits s)

to_string-free_of : (n : ℕ) → free_of b'+' (to_string n) ≡ true
to_string-free_of n = free_of-digits (to_string n) (to_string-digits n)

number_tail-digits :
    (last : Bool) (c : ℕ) (s rest : Text)
    → all is_digit (c ∷ s) ≡ true
    → number_tail last (c ∷ s ++ rest) ≡ number_tail false rest
unfolding number_tail
number_tail-digits last c [] rest h = ground arith
number_tail-digits last c (d ∷ s) rest h = ground (arith, number_tail-digits false d s rest)

number_tail-plain :
    (last : Bool) (s rest : Text)
    → (not (is_empty s) && all is_digit s) ≡ true
    → number_tail last (s ++ rest) ≡ number_tail false rest
number_tail-plain last [] rest h = cc
number_tail-plain last (c ∷ s) rest h = number_tail-digits last c s rest h

number_tail-sum_text : (n : ℕ) (ms : List ℕ) → number_tail true (sum_text n ms) ≡ true
unfolding number_tail
number_tail-sum_text n [] =
    ap (number_tail true) (sym (append-nil (to_string n)))
    ∙ number_tail-plain true (to_string n) [] (to_string-plain n)
number_tail-sum_text n (m ∷ ms) =
    number_tail-plain true (to_string n) (b'+' ∷ sum_text m ms) (to_string-plain n)
    ∙ number_tail-sum_text m ms

split-sum_text : (n : ℕ) (ms : List ℕ) → split b'+' (sum_text n ms) ≡ texts (n ∷ ms)
split-sum_text n [] =
    split_go-free_of b'+' [] (to_string n) (to_string-free_of n) ∙ ground (arith, to_string-plain n)
split-sum_text n (m ∷ ms) =
    split_go-append b'+' [] (to_string n) (sum_text m ms) (to_string-free_of n)
    ∙ ap (◌∷◌ (to_string n)) (split-sum_text m ms)

add_terms-texts :
    (total : ℕ) (ns : List ℕ)
    → total + sum ns < int_bound
    → add_terms total (texts ns) ≡ some (total + sum ns)
unfolding add_terms
add_terms-texts total [] h = ap some (omega arith)
add_terms-texts total (n ∷ ns) h =
    let small : ltb (total + n) int_bound ≡ true = ground arith in
    rw (stoi-to_string n (omega arith), small)
      (add_terms-texts (total + n) ns (omega arith) ∙ ap some (omega arith))

is_number_pipe_token-tail :
    (marker : ℕ) (s : Text)
    → number_tail true s ≡ true
    → is_number_pipe_token (marker ∷ s) marker ≡ true
unfolding is_number_pipe_token number_tail
is_number_pipe_token-tail marker [] h = cc
is_number_pipe_token-tail marker (c ∷ s) h = ground arith

-- A marker with printed numbers and plus signs between them is a number pipe, and its count is the
-- sum of the numbers, if that is in the range of int.
pub parse_number_pipe_count-sum_text :
    (marker n : ℕ) (ms : List ℕ)
    → n + sum ms < int_bound
    → (is_number_pipe_token (marker ∷ sum_text n ms) marker ≡ true)
      × (parse_number_pipe_count (marker ∷ sum_text n ms) ≡ some (n + sum ms))
unfolding parse_number_pipe_count
parse_number_pipe_count-sum_text marker n ms h = (
  is_number_pipe_token-tail marker (sum_text n ms) (number_tail-sum_text n ms),
  ap (add_terms 0) (split-sum_text n ms)
      ∙ add_terms-texts 0 (n ∷ ms) (omega arith)
      ∙ ap some (omega arith),
)
