-- ===== src/Base/Strings.antt =====
-- Texts as lists of bytes, with the parts of std::string and of the stream classes that the
-- sources use: comparison, find with substr, getline with a delimiter, and operator>>.
use Prim.Native.Char.{code}
use Prim.Native.Nat.{ℕ}
use Prim.Native.String.{String}
use mathlib.Core.Path.{◌≡◌, refl}
use mathlib.Core.Logic.{◌↔◌}
use mathlib.Core.Bool.{Bool, true, false, not, ◌&&◌, ◌||◌}
use mathlib.Core.List.{List, [], ◌∷◌, ◌++◌, append-nil, append_assoc}
use mathlib.Core.Option.{Option, none, some}
use native.Mathlib.Omega.{arith}
use network_programming.Base.Tests.{leb, ◌==◌, if◌then◌else◌}
use network_programming.Base.Lists.{is_empty, all}

abbrev pub Text : Type 0
Text = List ℕ

-- The bytes of a literal; every literal of the library is ASCII.
abbrev pub codes : String → Text
codes String.[] = []
codes (String.◌∷◌ c s) = code c ∷ codes s

-- operator== of std::string
abbrev pub text_eq : Text → Text → Bool
text_eq [] [] = true
text_eq (a ∷ s) (b ∷ t) = a == b && text_eq s t
text_eq _ _ = false

pub text_eq_iff : (s t : Text) → (text_eq s t ≡ true) ↔ (s ≡ t)
text_eq_iff (a ∷ s) (b ∷ t) = ground (arith, text_eq_iff s t)
text_eq_iff _ _ = ground arith

pub text_eq_refl : (s : Text) → text_eq s s ≡ true
text_eq_refl s = (text_eq_iff s s).1 refl

-- `find(c)` with `substr(0, pos)` and `substr(pos + 1)`; `none` is npos.
abbrev pub cut : ℕ → Text → Option (Text × Text)
cut d [] = none
cut d (c ∷ s) =
    if c == d
    then some ([], s)
    else elim (cut d s) [ none ↦ none | some (before, after) ↦ some (c ∷ before, after) ]

-- No byte of the text is `d`.
abbrev pub free_of : ℕ → Text → Bool
free_of d = all (λ c. not (c == d))

pub cut-append :
    (d : ℕ) (s rest : Text) → free_of d s ≡ true → cut d (s ++ d ∷ rest) ≡ some (s, rest)
cut-append d [] rest h = ground arith
cut-append d (c ∷ s) rest h = ground (arith, cut-append d s rest)

pub cut-free_of : (d : ℕ) (s : Text) → free_of d s ≡ true → cut d s ≡ none
cut-free_of d [] h = refl
cut-free_of d (c ∷ s) h = ground (arith, cut-free_of d s)

-- `while (getline(stream, part, delimiter))`: the part read so far, and the bytes to come. A part is
-- delivered at the end of the stream only if a byte of it was read.
abbrev pub split_go : ℕ → Text → Text → List Text
split_go d part [] = if is_empty part then [] else part ∷ []
split_go d part (c ∷ s) =
    let closed = part ∷ split_go d [] s in
    let longer = split_go d (part ++ c ∷ []) s in if c == d then closed else longer

abbrev pub split : ℕ → Text → List Text
split d = split_go d []

pub split_go-append :
    (d : ℕ) (part s rest : Text)
    → free_of d s ≡ true
    → split_go d part (s ++ d ∷ rest) ≡ (part ++ s) ∷ split d rest
split_go-append d part [] rest h = ground (arith, append-nil part)
split_go-append d part (c ∷ s) rest h =
    ground (arith, split_go-append d (part ++ c ∷ []) s rest, append_assoc part (c ∷ []) s)

pub split_go-free_of :
    (d : ℕ) (part s : Text)
    → free_of d s ≡ true
    → split_go d part s ≡ (if is_empty (part ++ s) then [] else (part ++ s) ∷ [])
split_go-free_of d part [] h = rw append-nil
split_go-free_of d part (c ∷ s) h =
    ground (arith, split_go-free_of d (part ++ c ∷ []) s, append_assoc part (c ∷ []) s)

-- std::isspace in the "C" locale
abbrev pub is_space : ℕ → Bool
is_space c = c == 32 || (leb 9 c && leb c 13)

-- `while (stream >> word)`
abbrev pub words_go : Text → Text → List Text
words_go word [] = if is_empty word then [] else word ∷ []
words_go word (c ∷ s) =
    let closed = (let rest = words_go [] s in if is_empty word then rest else word ∷ rest) in
    let longer = words_go (word ++ c ∷ []) s in if is_space c then closed else longer

abbrev pub words : Text → List Text
words = words_go []

-- The white space that operator>> skips first.
abbrev pub skip_spaces : Text → Text
skip_spaces [] = []
skip_spaces (c ∷ s) = let rest = skip_spaces s in if is_space c then rest else c ∷ s

abbrev pub take_word : Text → Text × Text
take_word [] = ([], [])
take_word (c ∷ s) =
    let (word, rest) = take_word s in if is_space c then ([], c ∷ s) else (c ∷ word, rest)

-- `stream >> word`; `none` is the failed stream.
abbrev pub read_word : Text → Option (Text × Text)
read_word s =
    let (word, rest) = take_word (skip_spaces s) in
    if is_empty word then none else some (word, rest)

-- `stream >> ch`
abbrev pub first_char : Text → Option (ℕ × Text)
first_char [] = none
first_char (c ∷ s) = some (c, s)

abbrev pub read_char : Text → Option (ℕ × Text)
read_char s = first_char (skip_spaces s)

abbrev pub is_digit : ℕ → Bool
is_digit c = leb b'0' c && leb c b'9'

-- if (!line.empty() && line.back() == '\r') line.pop_back();
unfoldable pub trim_cr : Text → Text
trim_cr [] = []
trim_cr (c ∷ []) = if c == b'\r' then [] else c ∷ []
trim_cr (c ∷ d ∷ s) = c ∷ trim_cr (d ∷ s)
