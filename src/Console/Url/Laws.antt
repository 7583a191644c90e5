-- ===== src/Console/Url/Laws.antt =====
-- The two decoders agree, and undo a form encoder.
use network_programming.Base.{
  ℕ, ◌+◌, ◌-◌, ◌/◌, ◌%◌, ◌<◌, Bool, true, false, ◌&&◌, ◌||◌, [], ◌∷◌, ◌++◌, Text, ltb, leb, ◌==◌,
  is_digit, if◌then◌else◌, ◌≡◌, refl, arith, all, ap, inl, inr, Bool-cases,
}
use network_programming.Console.Url.{is_xdigit, xdigit_value, url_decode, url_decode_inline}

-- The decoders of the two projects are the same function.
pub url_decode_inline-eq : (s : Text) → url_decode_inline s ≡ url_decode s
unfolding url_decode_inline url_decode
url_decode_inline-eq [] = refl
url_decode_inline-eq (c ∷ []) = refl
url_decode_inline-eq (c ∷ a ∷ []) =
    ap (◌∷◌ (if c == b'+' then 32 else c)) (url_decode_inline-eq (a ∷ []))
url_decode_inline-eq (c ∷ a ∷ b ∷ s) =
    ground (arith, url_decode_inline-eq s, url_decode_inline-eq (a ∷ b ∷ s))

-- A form encoder, independent of the code: letters, digits and `-._` stay, a space is `+`, and each
-- other byte is `%` with two upper-case hexadecimal digits.
abbrev pub is_unreserved : ℕ → Bool
is_unreserved c =
    is_digit c
    || (leb b'a' c && leb c b'z')
    || (leb b'A' c && leb c b'Z')
    || c == b'-'
    || c == b'.'
    || c == b'_'

abbrev pub hex_digit : ℕ → ℕ
hex_digit n = if ltb n 10 then b'0' + n else b'A' + (n - 10)

abbrev pub encode_byte : ℕ → Text
encode_byte c =
    if is_unreserved c
    then c ∷ []
    else if c == 32
    then b'+' ∷ []
    else b'%' ∷ hex_digit (c / 16) ∷ hex_digit (c % 16) ∷ []

abbrev pub url_encode : Text → Text
url_encode [] = []
url_encode (c ∷ s) = encode_byte c ++ url_encode s

abbrev pub is_byte : ℕ → Bool
is_byte c = ltb c 256

hex_digit_lem :
    (n : ℕ) → n < 16 → (is_xdigit (hex_digit n) ≡ true) × (xdigit_value (hex_digit n) ≡ n)
hex_digit_lem n h = ground arith

-- A byte that opens no escape stands for itself, whatever follows.
decode_plain :
    (c : ℕ) (s : Text)
    → (c == b'%') ≡ false
    → url_decode (c ∷ s) ≡ (if c == b'+' then 32 else c) ∷ url_decode s
unfolding url_decode
decode_plain c [] h = refl
decode_plain c (a ∷ []) h = refl
decode_plain c (a ∷ b ∷ s) h = ground arith

decode_escape :
    (n : ℕ) (s : Text)
    → n < 256
    → url_decode (b'%' ∷ hex_digit (n / 16) ∷ hex_digit (n % 16) ∷ s) ≡ n ∷ url_decode s
unfolding url_decode
decode_escape n s h = ground (arith, hex_digit_lem (n / 16), hex_digit_lem (n % 16))

decode-encode_byte :
    (c : ℕ) (s : Text) → is_byte c ≡ true → url_decode (encode_byte c ++ s) ≡ c ∷ url_decode s
decode-encode_byte c s h = elim (Bool-cases (is_unreserved c)) [
  | inl u ↦ ground (arith, decode_plain c s)
  | inr u ↦ ground (arith, decode_plain b'+' s, decode_escape c s)
]

-- Decoding gives back every byte string that a form encoder wrote.
pub url_decode-url_encode : (s : Text) → all is_byte s ≡ true → url_decode (url_encode s) ≡ s
url_decode-url_encode [] h = unfold url_decode in refl
url_decode-url_encode (c ∷ s) h =
    ground (arith, decode-encode_byte c (url_encode s), url_decode-url_encode s)
