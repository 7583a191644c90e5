-- ===== src/Console/Url.antt =====
-- `url_decode` of console_components.cpp (project 3) and of console_components.hpp (project 4).
pub mod Laws
use network_programming.Base.{
  ℕ, ◌+◌, ◌-◌, ◌*◌, Bool, true, false, not, ◌&&◌, ◌||◌, [], ◌∷◌, Option, none, some, Text, leb,
  ◌==◌, is_digit, if◌then◌else◌,
}

-- std::isxdigit
abbrev pub is_xdigit : ℕ → Bool
is_xdigit c = is_digit c || (leb b'a' c && leb c b'f') || (leb b'A' c && leb c b'F')

-- The value that std::strtol gives to one hexadecimal digit.
abbrev pub xdigit_value : ℕ → ℕ
xdigit_value c =
    if is_digit c then c - b'0' else if leb b'a' c then c - b'a' + 10 else c - b'A' + 10

-- Project 3.
unfoldable pub url_decode : Text → Text
url_decode [] = []
url_decode (c ∷ []) = (if c == b'+' then 32 else c) ∷ []
url_decode (c ∷ a ∷ []) = (if c == b'+' then 32 else c) ∷ url_decode (a ∷ [])
url_decode (c ∷ a ∷ b ∷ s) =
    let decoded = (xdigit_value a * 16 + xdigit_value b) ∷ url_decode s in
    let plain = (if c == b'+' then 32 else c) ∷ url_decode (a ∷ b ∷ s) in
    if c == b'%' && is_xdigit a && is_xdigit b then decoded else plain

-- std::tolower
abbrev pub to_lower : ℕ → ℕ
to_lower c = if leb b'A' c && leb c b'Z' then c + 32 else c

-- Project 4; `none` is -1.
unfoldable pub hex_value : ℕ → Option ℕ
hex_value c =
    if is_digit c
    then some (c - b'0')
    else if leb b'a' (to_lower c) && leb (to_lower c) b'f'
    then some (to_lower c - b'a' + 10)
    else none

abbrev hex_pair : Option ℕ → Option ℕ → Option ℕ
hex_pair (some high) (some low) = some (high * 16 + low)
hex_pair _ _ = none

unfoldable pub url_decode_inline : Text → Text
unfolding hex_value
url_decode_inline [] = []
url_decode_inline (c ∷ []) = (if c == b'+' then 32 else c) ∷ []
url_decode_inline (c ∷ a ∷ []) = (if c == b'+' then 32 else c) ∷ url_decode_inline (a ∷ [])
url_decode_inline (c ∷ a ∷ b ∷ s) =
    let rest = url_decode_inline s in
    let space = 32 ∷ url_decode_inline (a ∷ b ∷ s) in
    let plain = c ∷ url_decode_inline (a ∷ b ∷ s) in
    if c == b'+'
    then space
    else if c == b'%'
    then (elim (hex_pair (hex_value a) (hex_value b)) [ none ↦ plain | some byte ↦ byte ∷ rest ])
    else plain
