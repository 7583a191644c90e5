-- ===== src/Console/Escape/Html.antt =====
-- What a browser reads from the escaped text.
use network_programming.Base.{
  ℕ, zero, suc, ◌<◌, Bool, true, false, not, ◌&&◌, [], ◌∷◌, ◌++◌, Option, none, some, Text, codes,
  cut, ◌==◌, if◌then◌else◌, text_eq, ◌≡◌, refl, arith, all, all-append, length, Bool-cases, inl,
  inr,
}
use mathlib.Core.Option
use network_programming.Console.Escape.{
  html_escape, html_escape_byte, html_escape_inline, html_escape_inline_byte,
}

-- A byte that can open or close no tag, attribute or script literal. (An `&` only begins an entity.)
abbrev pub is_inert : ℕ → Bool
is_inert c = not (c == b'<') && not (c == b'>') && not (c == b'"') && not (c == b'\'')

abbrev pub is_inert_line : ℕ → Bool
is_inert_line c = is_inert c && not (c == b'\n') && not (c == b'\r')

pub html_escape-inert_line : (s : Text) → all is_inert_line (html_escape s) ≡ true
unfolding html_escape
html_escape-inert_line [] = refl
html_escape-inert_line (c ∷ s) =
    ground (
      arith,
      all-append is_inert_line (html_escape_byte c) (html_escape s),
      html_escape-inert_line s,
    )

pub html_escape_inline-inert : (s : Text) → all is_inert (html_escape_inline s) ≡ true
unfolding html_escape_inline
html_escape_inline-inert [] = refl
html_escape_inline-inert (c ∷ s) = ground (
  arith,
  all-append is_inert (html_escape_inline_byte c) (html_escape_inline s),
  html_escape_inline-inert s,
)

-- A browser's reading of character references, independent of the code: from `&` to the next `;`
-- stands a name. `none` is a reference that is not known or not closed.
abbrev entity : Text → Option ℕ
entity name =
    if text_eq name (codes "amp")
    then some b'&'
    else if text_eq name (codes "lt")
    then some b'<'
    else if text_eq name (codes "gt")
    then some b'>'
    else if text_eq name (codes "quot")
    then some b'"'
    else if text_eq name (codes "#39")
    then some b'\''
    else if text_eq name (codes "NewLine")
    then some b'\n'
    else none

-- The characters that a text of references stands for; the first argument bounds their number.
pub html_read : ℕ → Text → Option Text
html_read zero s = none
html_read (suc n) [] = some []
html_read (suc n) (c ∷ s) =
    let plain = Option.map (◌∷◌ c) (html_read n s) in
    let reference : Option Text = (elim (cut b';' s) [
      | none ↦ none
      | some (name, rest) ↦ (elim (entity name) [
        | none ↦ none
        | some d ↦ Option.map (◌∷◌ d) (html_read n rest)
      ])
    ]) in
    if c == b'&' then reference else plain

abbrev pub without_cr : Text → Text
without_cr [] = []
without_cr (c ∷ s) = if c == b'\r' then without_cr s else c ∷ without_cr s

html_read-escape_byte :
    (n c : ℕ) (s : Text)
    → (c == b'\r') ≡ false
    → html_read (suc n) (html_escape_byte c ++ s) ≡ Option.map (◌∷◌ c) (html_read n s)
unfolding html_read
html_read-escape_byte n c s h = ground arith

html_read-inline_byte :
    (n c : ℕ) (s : Text)
    → html_read (suc n) (html_escape_inline_byte c ++ s) ≡ Option.map (◌∷◌ c) (html_read n s)
unfolding html_read
html_read-inline_byte n c s = ground arith

-- A browser reads, from the escaped text of project 3, the original text less its carriage returns.
pub html_read-html_escape :
    (n : ℕ) (s : Text) → length s < n → html_read n (html_escape s) ≡ some (without_cr s)
unfolding html_escape
html_read-html_escape zero s h = absurd (omega arith)
html_read-html_escape (suc n) [] h = unfold html_read in refl
html_read-html_escape (suc n) (c ∷ s) h = elim (Bool-cases (c == b'\r')) [
  | inl e ↦ ground (arith, html_read-html_escape (suc n) s)
  | inr e ↦ ground (arith, html_read-escape_byte n c (html_escape s), html_read-html_escape n s)
]

-- A browser reads, from the escaped text of project 4, the original text.
pub html_read-html_escape_inline :
    (n : ℕ) (s : Text) → length s < n → html_read n (html_escape_inline s) ≡ some s
unfolding html_escape_inline
html_read-html_escape_inline zero s h = absurd (omega arith)
html_read-html_escape_inline (suc n) [] h = unfold html_read in refl
html_read-html_escape_inline (suc n) (c ∷ s) h =
    ground
      (arith, html_read-inline_byte n c (html_escape_inline s), html_read-html_escape_inline n s)
