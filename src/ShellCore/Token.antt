-- ===== src/ShellCore/Token.antt =====
-- shell_core.h of project 2: the tokens of number pipes, whose count may be a sum, as in |1+2.
pub mod Plain
pub mod Sum
use network_programming.Base.{
  ℕ, ◌+◌, Bool, true, false, not, ◌&&◌, List, [], ◌∷◌, Option, none, some, Text, is_digit, ltb,
  ◌==◌, length, split, split_go, stoi, ℤ, pos, negsuc, if◌then◌else◌, ◌>>=◌, ◌≡◌, refl, arith,
  free_of, is_empty, all, split_go-free_of, ap, ◌∙◌,
}
use network_programming.Shell.Parse

-- The loop behind the marker; the flag is `lastWasPlus`.
unfoldable pub number_tail : Bool → Text → Bool
number_tail last_was_plus [] = not last_was_plus
number_tail last_was_plus (c ∷ s) =
    let after_digit = number_tail false s in
    let after_plus = number_tail true s in
    if is_digit c
    then after_digit
    else if c == b'+'
    then (if last_was_plus then false else after_plus)
    else false

unfoldable pub is_number_pipe_token : Text → ℕ → Bool
unfolding number_tail
is_number_pipe_token [] marker = false
is_number_pipe_token (c ∷ []) marker = false
is_number_pipe_token (c ∷ d ∷ s) marker =
    if not (c == marker) then false else number_tail true (d ∷ s)

-- One more than the largest int. A larger sum overflows, which is undefined, and has no count.
abbrev pub int_bound : ℕ
int_bound = 2147483648

abbrev pub bounded : ℕ → Option ℕ
bounded total = if ltb total int_bound then some total else none

-- The loop over the terms, from the sum so far; `none` is the exception of std::stoi.
unfoldable pub add_terms : ℕ → List Text → Option ℕ
add_terms total [] = some total
add_terms total (term ∷ terms) = do
  count ← Parse.to_count (stoi term)
  total' ← bounded (total + count)
  add_terms total' terms

unfoldable pub parse_number_pipe_count : Text → Option ℕ
unfolding add_terms
parse_number_pipe_count token = add_terms 0 (split b'+' (Parse.tail token))
