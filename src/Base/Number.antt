-- ===== src/Base/Number.antt =====
-- Decimal numbers as text: std::to_string, operator<< of an int, and std::stoi.
use network_programming.Base.Tests.{leb, ltb, ◌==◌, if◌then◌else◌, Bool-cases}
use mathlib.Core.Logic.{inl, inr}
use network_programming.Base.Strings.{Text, is_digit, is_space}
use network_programming.Base.Lists.{is_empty, all}
use native.Mathlib.Omega.{arith}
use Prim.Native.Nat.{ℕ, zero, suc, ◌+◌, ◌-◌, ◌*◌, ◌/◌, ◌%◌, ◌<◌, ◌≤◌}
use mathlib.Core.List.{[], ◌∷◌}
use mathlib.Core.Option.{Option, none, some}
use mathlib.Core.Bool.{Bool, true, false, not, ◌&&◌}
use mathlib.Core.Path.{◌≡◌, refl, sym, ◌∙◌}

-- `negsuc n` is -(n + 1).
pub data ℤ : Type 0 where
  pos : ℕ → ℤ
  negsuc : ℕ → ℤ

-- static_cast to an unsigned type of `m` values
abbrev pub wrap : ℕ → ℤ → ℕ
wrap m (pos n) = n % m
wrap m (negsuc n) = m - 1 - n % m

abbrev pub digit_of : ℕ → ℕ
digit_of d = b'0' + d

-- The quotient falls at each step, so `suc n` rounds reach a single digit.
to_string_go : ℕ → ℕ → Text → Text
to_string_go zero n rest = rest
to_string_go (suc f) n rest =
    let more = to_string_go f (n / 10) (digit_of (n % 10) ∷ rest) in
    if ltb n 10 then digit_of n ∷ rest else more

unfoldable pub to_string : ℕ → Text
unfolding to_string_go
to_string n = to_string_go (suc n) n []

abbrev pub int_max : ℕ
int_max = 2147483647

-- The digits from the front of a text, and whether there was one.
stoi_digits : Bool → ℕ → Text → Option ℕ
stoi_digits seen n [] = if seen then some n else none
stoi_digits seen n (c ∷ s) =
    let next = stoi_digits true (n * 10 + (c - b'0')) s in
    if is_digit c then next else if seen then some n else none

stoi_unsigned : Bool → Text → Option ℤ
unfolding stoi_digits
stoi_unsigned minus s = elim (stoi_digits false 0 s) [
  | none ↦ none
  | some n ↦
      if minus
      then (if n == 0
          then some (pos 0)
          else if leb n (int_max + 1)
          then some (negsuc (n - 1))
          else none)
      else if leb n int_max
      then some (pos n)
      else none
]

-- std::stoi: `none` is the exception, for no digits and for a value out of range.
unfoldable pub stoi : Text → Option ℤ
unfolding stoi_unsigned
stoi [] = none
stoi (c ∷ s) =
    let after_space = stoi s in
    if is_space c
    then after_space
    else if c == b'-'
    then stoi_unsigned true s
    else if c == b'+'
    then stoi_unsigned false s
    else stoi_unsigned false (c ∷ s)

abbrev plain : Text → Bool
plain s = not (is_empty s) && all is_digit s

to_string_go-digits :
    (f n : ℕ) (rest : Text) → all is_digit rest ≡ true → all is_digit (to_string_go f n rest) ≡ true
unfolding to_string_go
to_string_go-digits zero n rest h = h
to_string_go-digits (suc f) n rest h =
    ground (arith, to_string_go-digits f (n / 10) (digit_of (n % 10) ∷ rest))

-- A number is printed in digits alone.
pub to_string-digits : (n : ℕ) → all is_digit (to_string n) ≡ true
unfolding to_string
to_string-digits n = to_string_go-digits (suc n) n [] refl

stoi_digits-to_string_go :
    (f n : ℕ) (seen : Bool) (rest : Text)
    → n < f
    → stoi_digits seen 0 (to_string_go f n rest) ≡ stoi_digits true n rest
unfolding stoi_digits to_string_go
stoi_digits-to_string_go zero n seen rest h = absurd (omega arith)
stoi_digits-to_string_go (suc f) n seen rest h = elim (Bool-cases (ltb n 10)) [
  | inl small ↦ ground arith
  | inr large ↦
      let digits : is_digit (digit_of (n % 10)) ≡ true = ground arith in
      let value : (n / 10) * 10 + (digit_of (n % 10) - b'0') ≡ n = omega arith in
      rw
        (
          large,
          stoi_digits-to_string_go f (n / 10) seen (digit_of (n % 10) ∷ rest) (ground arith),
          digits,
          value,
        )
        refl
]

stoi-all_digits :
    (c : ℕ) (s : Text) → is_digit c ≡ true → stoi (c ∷ s) ≡ stoi_unsigned false (c ∷ s)
unfolding stoi
stoi-all_digits c s h = ground arith

stoi-plain : (s : Text) → plain s ≡ true → stoi s ≡ stoi_unsigned false s
stoi-plain [] h = cc
stoi-plain (c ∷ s) h = stoi-all_digits c s (ground arith)

to_string_go-filled :
    (f n : ℕ) (rest : Text) → is_empty rest ≡ false → is_empty (to_string_go f n rest) ≡ false
unfolding to_string_go
to_string_go-filled zero n rest h = h
to_string_go-filled (suc f) n rest h =
    ground (arith, to_string_go-filled f (n / 10) (digit_of (n % 10) ∷ rest))

pub to_string-plain : (n : ℕ) → plain (to_string n) ≡ true
unfolding to_string to_string_go
to_string-plain n =
    let filled = to_string_go-filled n (n / 10) (digit_of (n % 10) ∷ []) refl in
    ground (arith, filled, to_string-digits n)

stoi_unsigned-digits :
    (s : Text) (n : ℕ)
    → stoi_digits false 0 s ≡ some n
    → n ≤ int_max
    → stoi_unsigned false s ≡ some (pos n)
unfolding stoi_unsigned
stoi_unsigned-digits s n e h = ground arith

stoi_digits-to_string : (n : ℕ) → stoi_digits false 0 (to_string n) ≡ some n
unfolding stoi_digits to_string
stoi_digits-to_string n = stoi_digits-to_string_go (suc n) n false [] (omega arith)

-- std::stoi reads back what std::to_string prints, for every number of the range of int.
pub stoi-to_string : (n : ℕ) → n ≤ int_max → stoi (to_string n) ≡ some (pos n)
stoi-to_string n h =
    stoi-plain (to_string n) (to_string-plain n)
    ∙ stoi_unsigned-digits (to_string n) n (stoi_digits-to_string n) h

stoi_unsigned_bound :
    (o : Option ℕ) (n : ℕ)
    → (elim o [ none ↦ none | some m ↦ if leb m int_max then some (pos m) else none ])
      ≡ some (pos n)
    → n ≤ int_max
stoi_unsigned_bound none n h = cc
stoi_unsigned_bound (some m) n h = ground arith

-- What std::stoi reads from digits is in the range of int.
pub stoi-plain_bound : (s : Text) (n : ℕ) → plain s ≡ true → stoi s ≡ some (pos n) → n ≤ int_max
unfolding stoi_unsigned
stoi-plain_bound s n h e = stoi_unsigned_bound (stoi_digits false 0 s) n (sym (stoi-plain s h) ∙ e)
