-- ===== src/Console/Prompt.antt =====
-- The search for the prompt `% ` in what a remote shell sends, which TCP may cut anywhere:
-- `received_prompt` of console_components.hpp (project 4), and the test in `do_read` of
-- console_components.cpp (project 3).
use network_programming.Base.{
  Bool, true, false, ◌&&◌, ◌||◌, List, [], ◌∷◌, ◌++◌, Text, ◌==◌, if◌then◌else◌, is_empty, ◌≡◌,
  refl, arith, Bool-cases, inl, inr, append-nil, append_assoc, ◌∙◌, sym,
}

-- `find("% ") != npos`
unfoldable pub has_prompt : Text → Bool
has_prompt [] = false
has_prompt (c ∷ []) = false
has_prompt (c ∷ d ∷ s) = (c == b'%' && d == 32) || has_prompt (d ∷ s)

-- `combined.substr(combined.size() - 1)`, or nothing of an empty text
unfoldable pub last_byte : Text → Text
last_byte [] = []
last_byte (c ∷ []) = c ∷ []
last_byte (c ∷ d ∷ s) = last_byte (d ∷ s)

-- Project 4: the new tail, and whether the prompt has come.
unfoldable pub received_prompt : Text → Text → Text × Bool
received_prompt prompt_tail chunk =
    if has_prompt (prompt_tail ++ chunk)
    then ([], true)
    else (last_byte (prompt_tail ++ chunk), false)

-- Whether some chunk brings the prompt; the reading goes on until one does.
unfoldable pub prompt_arrives : Text → List Text → Bool
unfolding received_prompt
prompt_arrives tail [] = false
prompt_arrives tail (chunk ∷ chunks) =
    let (tail', found) = received_prompt tail chunk in
    let later = prompt_arrives tail' chunks in if found then true else later

-- `content.front() == ' '` of a content that is not empty
abbrev starts_with_space : Text → Bool
starts_with_space [] = false
starts_with_space (c ∷ s) = c == 32

-- `content.back() == '%'` of a content that is not empty
unfoldable pub ends_with_percent : Text → Bool
ends_with_percent [] = false
ends_with_percent (c ∷ []) = c == b'%'
ends_with_percent (c ∷ d ∷ s) = ends_with_percent (d ∷ s)

-- Project 3: the flag `last_char_was_percent_`, and whether the prompt has come.
unfoldable pub read_content : Bool → Text → Bool × Bool
unfolding has_prompt ends_with_percent
read_content last_char_was_percent content = (
  ends_with_percent content,
  has_prompt content || (last_char_was_percent && starts_with_space content),
)

unfoldable pub prompt_arrives_flag : Bool → List Text → Bool
unfolding read_content
prompt_arrives_flag flag [] = false
prompt_arrives_flag flag (content ∷ contents) =
    let (flag', found) = read_content flag content in
    let later = prompt_arrives_flag flag' contents in if found then true else later

abbrev pub flatten : List Text → Text
flatten [] = []
flatten (s ∷ ss) = s ++ flatten ss

-- Of a text without a prompt only the last byte matters for what follows.
has_prompt-last_byte :
    (s t : Text) → has_prompt s ≡ false → has_prompt (s ++ t) ≡ has_prompt (last_byte s ++ t)
unfolding has_prompt last_byte
has_prompt-last_byte [] t h = refl
has_prompt-last_byte (c ∷ []) t h = refl
has_prompt-last_byte (c ∷ d ∷ s) t h = ground (arith, has_prompt-last_byte (d ∷ s) t)

has_prompt-append : (s t : Text) → has_prompt s ≡ true → has_prompt (s ++ t) ≡ true
unfolding has_prompt
has_prompt-append [] t h = cc
has_prompt-append (c ∷ []) t h = cc
has_prompt-append (c ∷ d ∷ s) t h = ground (arith, has_prompt-append (d ∷ s) t)

last_byte-no_prompt : (s : Text) → has_prompt (last_byte s) ≡ false
unfolding has_prompt last_byte
last_byte-no_prompt [] = refl
last_byte-no_prompt (c ∷ []) = refl
last_byte-no_prompt (c ∷ d ∷ s) = last_byte-no_prompt (d ∷ s)

prompt_arrives_lem :
    (tail : Text) (chunks : List Text)
    → has_prompt tail ≡ false
    → prompt_arrives tail chunks ≡ has_prompt (tail ++ flatten chunks)
unfolding prompt_arrives
prompt_arrives_lem tail [] h = ground (arith, append-nil tail)
prompt_arrives_lem tail (chunk ∷ chunks) h = elim (Bool-cases (has_prompt (tail ++ chunk))) [
  | inl found ↦ ground (
    arith,
    append_assoc tail chunk (flatten chunks),
    has_prompt-append (tail ++ chunk) (flatten chunks) found,
  )
  | inr more ↦ ground (
    arith,
    append_assoc tail chunk (flatten chunks),
    has_prompt-last_byte (tail ++ chunk) (flatten chunks) more,
    prompt_arrives_lem (last_byte (tail ++ chunk)) chunks (last_byte-no_prompt (tail ++ chunk)),
  )
]

-- Project 4 finds the prompt in the chunks of a stream, however the stream is cut, exactly when the
-- whole stream contains it.
pub prompt_arrives-flatten :
    (chunks : List Text) → prompt_arrives [] chunks ≡ has_prompt (flatten chunks)
prompt_arrives-flatten chunks = prompt_arrives_lem [] chunks (unfold has_prompt in refl)

abbrev percent_if : Bool → Text
percent_if flag = if flag then b'%' ∷ [] else []

has_prompt-percent_if :
    (s t : Text)
    → has_prompt (last_byte s ++ t) ≡ has_prompt (percent_if (ends_with_percent s) ++ t)
unfolding has_prompt last_byte ends_with_percent
has_prompt-percent_if [] t = refl
has_prompt-percent_if (c ∷ []) [] = ground arith
has_prompt-percent_if (c ∷ []) (d ∷ t) = ground arith
has_prompt-percent_if (c ∷ d ∷ s) t = has_prompt-percent_if (d ∷ s) t

-- No read completes with no bytes.
abbrev pub NoneEmpty : List Text → Type 0
NoneEmpty [] = Unit {0}
NoneEmpty (s ∷ ss) = (is_empty s ≡ false) × NoneEmpty ss

found_lem :
    (flag : Bool) (s : Text)
    → is_empty s ≡ false
    → (read_content flag s).1 ≡ has_prompt (percent_if flag ++ s)
unfolding read_content
found_lem flag [] h = cc
found_lem flag (c ∷ s) h = ground arith

last_byte-percent_if :
    (flag : Bool) (s : Text) → is_empty s ≡ false → last_byte (percent_if flag ++ s) ≡ last_byte s
unfolding last_byte
last_byte-percent_if flag [] h = cc
last_byte-percent_if flag (c ∷ s) h = ground arith

prompt_arrives_flag_lem :
    (flag : Bool) (contents : List Text)
    → NoneEmpty contents
    → prompt_arrives_flag flag contents ≡ has_prompt (percent_if flag ++ flatten contents)
unfolding prompt_arrives_flag
prompt_arrives_flag_lem flag [] h = unfold has_prompt in ground arith
prompt_arrives_flag_lem flag (s ∷ ss) h = elim (Bool-cases (has_prompt (percent_if flag ++ s))) [
  | inl found ↦ ground (
    arith,
    found_lem flag s h.0,
    append_assoc (percent_if flag) s (flatten ss),
    has_prompt-append (percent_if flag ++ s) (flatten ss) found,
  )
  | inr more ↦ ground (
    arith,
    found_lem flag s h.0,
    append_assoc (percent_if flag) s (flatten ss),
    has_prompt-last_byte (percent_if flag ++ s) (flatten ss) more,
    last_byte-percent_if flag s h.0,
    has_prompt-percent_if s (flatten ss),
    prompt_arrives_flag_lem (ends_with_percent s) ss h.1,
  )
]

-- So does project 3 with its one flag, for reads that each bring a byte at least; the two projects
-- then agree.
pub prompt_arrives_flag-flatten :
    (contents : List Text)
    → NoneEmpty contents
    → (prompt_arrives_flag false contents ≡ has_prompt (flatten contents))
      × (prompt_arrives_flag false contents ≡ prompt_arrives [] contents)
prompt_arrives_flag-flatten contents h =
    let e = prompt_arrives_flag_lem false contents h in
    (e, e ∙ sym (prompt_arrives-flatten contents))
