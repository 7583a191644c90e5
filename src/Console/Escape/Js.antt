-- ===== src/Console/Escape/Js.antt =====
-- What a JavaScript engine reads from the scripts.
use network_programming.Base.{
  ℕ, ◌+◌, ◌-◌, ◌*◌, ◌/◌, ◌%◌, ◌<◌, Bool, true, false, not, ◌&&◌, ◌||◌, [], ◌∷◌, ◌++◌, Option, none,
  some, Text, codes, ◌==◌, if◌then◌else◌, ◌≡◌, refl, arith, all, leb, ltb, is_digit, append_assoc,
}
use network_programming.Console.Escape.Html.{without_cr}
use network_programming.Console.Escape.{
  js_string_escape, js_escape_byte, js_escape_inline, js_escape_inline_byte, low_hex_digit,
}

abbrev hex_digit_value : ℕ → Option ℕ
hex_digit_value c =
    if is_digit c
    then some (c - b'0')
    else if leb b'a' c && leb c b'f'
    then some (c - b'a' + 10)
    else if leb b'A' c && leb c b'F'
    then some (c - b'A' + 10)
    else none

abbrev hex_pair : Option ℕ → Option ℕ → Option ℕ
hex_pair (some high) (some low) = some (high * 16 + low)
hex_pair _ _ = none

abbrev prepend : ℕ → Option (Text × Text) → Option (Text × Text)
prepend c none = none
prepend c (some (value, rest)) = some (c ∷ value, rest)

abbrev prepend_hex : Option ℕ → Option (Text × Text) → Option (Text × Text)
prepend_hex none later = none
prepend_hex (some c) later = prepend c later

-- A JavaScript string literal in single quotes, from behind its opening quote: its value, and the
-- source behind the closing quote. `none` is a literal that is not closed on its line, or that holds
-- an escape other than `\\`, `\'`, `\n` and `\xHH`.
pub js_read : Text → Option (Text × Text)
js_read [] = none
js_read (c ∷ []) = if c == b'\'' then some ([], []) else none
js_read (c ∷ d ∷ []) =
    let plain = prepend c (js_read (d ∷ [])) in
    if c == b'\''
    then some ([], d ∷ [])
    else if c == b'\n' || c == b'\r' || c == b'\\'
    then none
    else plain
js_read (c ∷ d ∷ e ∷ []) =
    let plain = prepend c (js_read (d ∷ e ∷ [])) in
    let quoted = prepend d (js_read (e ∷ [])) in
    let newline = prepend b'\n' (js_read (e ∷ [])) in
    if c == b'\''
    then some ([], d ∷ e ∷ [])
    else if c == b'\n' || c == b'\r'
    then none
    else if not (c == b'\\')
    then plain
    else if d == b'\\' || d == b'\''
    then quoted
    else if d == b'n'
    then newline
    else none
js_read (c ∷ d ∷ e ∷ f ∷ s) =
    let plain = prepend c (js_read (d ∷ e ∷ f ∷ s)) in
    let quoted = prepend d (js_read (e ∷ f ∷ s)) in
    let newline = prepend b'\n' (js_read (e ∷ f ∷ s)) in
    let hex = prepend_hex (hex_pair (hex_digit_value e) (hex_digit_value f)) (js_read s) in
    if c == b'\''
    then some ([], d ∷ e ∷ f ∷ s)
    else if c == b'\n' || c == b'\r'
    then none
    else if not (c == b'\\')
    then plain
    else if d == b'\\' || d == b'\''
    then quoted
    else if d == b'n'
    then newline
    else if d == b'x'
    then hex
    else none

-- The source behind an escaped text begins with the closing quote, so one byte follows at least.
js_read-plain :
    (c d : ℕ) (s : Text)
    → (c == b'\'' || c == b'\n' || c == b'\r' || c == b'\\') ≡ false
    → js_read (c ∷ d ∷ s) ≡ prepend c (js_read (d ∷ s))
unfolding js_read
js_read-plain c d [] h = ground arith
js_read-plain c d (e ∷ []) h = ground arith
js_read-plain c d (e ∷ f ∷ s) h = ground arith

js_read-quoted :
    (c d : ℕ) (s : Text)
    → (c == b'\\' || c == b'\'') ≡ true
    → js_read (b'\\' ∷ c ∷ d ∷ s) ≡ prepend c (js_read (d ∷ s))
unfolding js_read
js_read-quoted c d [] h = ground arith
js_read-quoted c d (f ∷ s) h = ground arith

js_read-newline :
    (d : ℕ) (s : Text) → js_read (b'\\' ∷ b'n' ∷ d ∷ s) ≡ prepend b'\n' (js_read (d ∷ s))
unfolding js_read
js_read-newline d [] = refl
js_read-newline d (f ∷ s) = refl

-- A text that is not empty.
abbrev IsCons : Text → Type 0
IsCons [] = ⊥
IsCons (c ∷ s) = Unit {0}

js_read-escape_byte :
    (c : ℕ) (s : Text)
    → IsCons s
    → js_read (js_escape_byte c ++ s) ≡ (if c == b'\r' then js_read s else prepend c (js_read s))
js_read-escape_byte c [] h = absurd h
js_read-escape_byte c (d ∷ s) h =
    ground (arith, js_read-plain c d s, js_read-quoted c d s, js_read-newline d s)

hex_value_lem : (n : ℕ) → n < 16 → hex_digit_value (low_hex_digit n) ≡ some n
hex_value_lem n h = ground arith

js_read-hex :
    (n : ℕ) (s : Text)
    → n < 256
    → js_read (b'\\' ∷ b'x' ∷ low_hex_digit (n / 16) ∷ low_hex_digit (n % 16) ∷ s)
      ≡ prepend n (js_read s)
unfolding js_read
js_read-hex n s h = ground (arith, hex_value_lem (n / 16), hex_value_lem (n % 16))

js_read-sign :
    (s : Text)
    → (js_read (codes "\\x3C" ++ s) ≡ prepend b'<' (js_read s))
      × (js_read (codes "\\x3E" ++ s) ≡ prepend b'>' (js_read s))
      × (js_read (codes "\\x26" ++ s) ≡ prepend b'&' (js_read s))
unfolding js_read
js_read-sign s = (refl, refl, refl)

js_read-inline_byte :
    (c : ℕ) (s : Text)
    → IsCons s
    → c < 256
    → js_read (js_escape_inline_byte c ++ s)
      ≡ (if c == b'\r' then js_read s else prepend c (js_read s))
js_read-inline_byte c [] h small = absurd h
js_read-inline_byte c (d ∷ s) h small = ground (
  arith,
  js_read-plain c d s,
  js_read-quoted c d s,
  js_read-newline d s,
  js_read-hex c (d ∷ s),
  js_read-sign (d ∷ s),
)

IsCons-append : (s : Text) (c : ℕ) (t : Text) → IsCons (s ++ c ∷ t)
IsCons-append [] c t = tt
IsCons-append (d ∷ s) c t = tt

-- The literal that project 3 writes has the given text, less its carriage returns, as its value, and
-- ends where the program closes it.
pub js_read-js_string_escape :
    (s rest : Text) → js_read (js_string_escape s ++ b'\'' ∷ rest) ≡ some (without_cr s, rest)
unfolding js_string_escape
js_read-js_string_escape [] [] = unfold js_read in refl
js_read-js_string_escape [] (d ∷ []) = unfold js_read in refl
js_read-js_string_escape [] (d ∷ e ∷ []) = unfold js_read in refl
js_read-js_string_escape [] (d ∷ e ∷ f ∷ rest) = unfold js_read in refl
js_read-js_string_escape (c ∷ s) rest =
    rw (append_assoc (js_escape_byte c) (js_string_escape s) (b'\'' ∷ rest)) (
      ground (
        arith,
        js_read-escape_byte c (js_string_escape s ++ b'\'' ∷ rest)
            (IsCons-append (js_string_escape s) b'\'' rest),
        js_read-js_string_escape s rest,
      ))

abbrev pub is_byte : ℕ → Bool
is_byte c = ltb c 256

-- So does the literal of project 4, for every text of bytes.
pub js_read-js_escape_inline :
    (s rest : Text)
    → all is_byte s ≡ true
    → js_read (js_escape_inline s ++ b'\'' ∷ rest) ≡ some (without_cr s, rest)
unfolding js_escape_inline
js_read-js_escape_inline [] [] h = unfold js_read in refl
js_read-js_escape_inline [] (d ∷ []) h = unfold js_read in refl
js_read-js_escape_inline [] (d ∷ e ∷ []) h = unfold js_read in refl
js_read-js_escape_inline [] (d ∷ e ∷ f ∷ rest) h = unfold js_read in refl
js_read-js_escape_inline (c ∷ s) rest h =
    rw (append_assoc (js_escape_inline_byte c) (js_escape_inline s) (b'\'' ∷ rest)) (
      ground (
        arith,
        js_read-inline_byte c (js_escape_inline s ++ b'\'' ∷ rest)
            (IsCons-append (js_escape_inline s) b'\'' rest),
        js_read-js_escape_inline s rest,
      ))
