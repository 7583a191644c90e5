-- ===== src/Socks/Firewall/Parsing.antt =====
-- The lines of socks.conf, printed and parsed.
use network_programming.Base.{
  ◌⊎◌, inl, inr, ℕ, Bool, true, false, not, ◌&&◌, [], ◌∷◌, ◌++◌, some, ◌≡◌, refl, arith, Text,
  codes, split_go-append, split_go-free_of, cut-free_of, cut-append, is_space, take_word, read_word,
  all, all-append, is_empty, free_of, ◌==◌, if◌then◌else◌,
}
use network_programming.Socks.Firewall.{
  Octets, parse_rule, strip_comment, octets_of, connect_command, bind_command,
}

-- A byte that an octet pattern may hold: no white space, no dot and no comment sign.
abbrev pub is_pattern_byte : ℕ → Bool
is_pattern_byte c = not (is_space c) && not (c == b'.') && not (c == b'#')

abbrev pub IsPattern : Text → Type 0
IsPattern s = (is_empty s ≡ false) × (all is_pattern_byte s ≡ true)

pub record IsPatternRow (o : Octets) : Type 0 where
  pub first : IsPattern o.a
  pub second : IsPattern o.b
  pub third : IsPattern o.c
  pub fourth : IsPattern o.d

abbrev pub dotted : Octets → Text
dotted o = o.a ++ (b'.' ∷ (o.b ++ (b'.' ∷ (o.c ++ (b'.' ∷ o.d)))))

-- `permit c a.b.c.d` or `permit b a.b.c.d`, with what follows it on the line.
abbrev pub rule_line : ℕ → Octets → Text
rule_line letter o = codes "permit " ++ (letter ∷ 32 ∷ dotted o)

abbrev is_line_byte : ℕ → Bool
is_line_byte c = not (is_space c) && not (c == b'#')

pattern-free_of : (s : Text) → all is_pattern_byte s ≡ true → free_of b'.' s ≡ true
pattern-free_of [] h = refl
pattern-free_of (c ∷ s) h = ground (arith, pattern-free_of s)

pattern-line : (s : Text) → all is_pattern_byte s ≡ true → all is_line_byte s ≡ true
pattern-line [] h = refl
pattern-line (c ∷ s) h = ground (arith, pattern-line s)

line-free_of : (s : Text) → all is_line_byte s ≡ true → free_of b'#' s ≡ true
line-free_of [] h = refl
line-free_of (c ∷ s) h = ground (arith, line-free_of s)

take_word-line : (s : Text) → all is_line_byte s ≡ true → take_word s ≡ (s, [])
take_word-line [] h = refl
take_word-line (c ∷ s) h = ground (arith, take_word-line s)

all-dotted : (o : Octets) → IsPatternRow o → all is_line_byte (dotted o) ≡ true
all-dotted o h = ground (
  arith,
  pattern-line o.a h.first.1,
  pattern-line o.b h.second.1,
  pattern-line o.c h.third.1,
  pattern-line o.d h.fourth.1,
  all-append is_line_byte o.a (b'.' ∷ (o.b ++ (b'.' ∷ (o.c ++ (b'.' ∷ o.d))))),
  all-append is_line_byte o.b (b'.' ∷ (o.c ++ (b'.' ∷ o.d))),
  all-append is_line_byte o.c (b'.' ∷ o.d),
)

octets_of-dotted : (o : Octets) → IsPatternRow o → octets_of (dotted o) ≡ some o
unfolding octets_of
octets_of-dotted o h =
    rw
      (
        split_go-append b'.' [] o.a _ (pattern-free_of o.a h.first.1),
        split_go-append b'.' [] o.b _ (pattern-free_of o.b h.second.1),
        split_go-append b'.' [] o.c _ (pattern-free_of o.c h.third.1),
        split_go-free_of b'.' [] o.d (pattern-free_of o.d h.fourth.1),
        h.fourth.0,
      )
      refl

abbrev command_of : ℕ → ℕ
command_of letter = if letter == b'c' then connect_command else bind_command

read_word-line :
    (s : Text) → is_empty s ≡ false → all is_line_byte s ≡ true → read_word (32 ∷ s) ≡ some (s, [])
read_word-line [] e h = cc
read_word-line (c ∷ s) e h = ground (arith, take_word-line s)

dotted-ne_nil : (o : Octets) → is_empty (dotted o) ≡ false
dotted-ne_nil o =
    elim (o.a) as (λ a. is_empty (a ++ (b'.' ∷ (o.b ++ (b'.' ∷ (o.c ++ (b'.' ∷ o.d)))))) ≡ false) [
      | [] ↦ refl
      | c ∷ s ↦ refl
    ]

strip_comment-free : (s : Text) → free_of b'#' s ≡ true → strip_comment s ≡ s
unfolding strip_comment
strip_comment-free s h = rw (cut-free_of b'#' s h, strip_comment)

strip_comment-cut :
    (s comment : Text) → free_of b'#' s ≡ true → strip_comment (s ++ b'#' ∷ comment) ≡ s
unfolding strip_comment
strip_comment-cut s comment h = rw (cut-append b'#' s comment h, strip_comment)

abbrev IsCommandLetter : ℕ → Type 0
IsCommandLetter letter = (letter ≡ b'c') ⊎ (letter ≡ b'b')

rule_line-free_of :
    (letter : ℕ) (o : Octets)
    → IsCommandLetter letter
    → IsPatternRow o
    → free_of b'#' (rule_line letter o) ≡ true
rule_line-free_of letter o l h = ground (arith, line-free_of (dotted o) (all-dotted o h))

parse_rule-stripped :
    (letter : ℕ) (o : Octets) (line : Text)
    → IsCommandLetter letter
    → IsPatternRow o
    → strip_comment line ≡ rule_line letter o
    → parse_rule line ≡ some (record { command = command_of letter; octets = o })
unfolding parse_rule
parse_rule-stripped letter o line (inl e) h s =
    rw (s, e, read_word-line (dotted o) (dotted-ne_nil o) (all-dotted o h), octets_of-dotted o h)
      refl
parse_rule-stripped letter o line (inr e) h s =
    rw (s, e, read_word-line (dotted o) (dotted-ne_nil o) (all-dotted o h), octets_of-dotted o h)
      refl

-- A line `permit c a.b.c.d` or `permit b a.b.c.d`, whose four octet patterns are not empty and hold
-- no white space, dot or comment sign, gives the rule for CONNECT or BIND with those octets, and it
-- gives the same rule with any comment behind it.
pub parse_rule-rule_line :
    (letter : ℕ) (o : Octets) (comment : Text)
    → IsCommandLetter letter
    → IsPatternRow o
    → (parse_rule (rule_line letter o) ≡ some (record { command = command_of letter; octets = o }))
      × (parse_rule (rule_line letter o ++ b'#' ∷ comment)
          ≡ some (record { command = command_of letter; octets = o }))
parse_rule-rule_line letter o comment l h =
    let plain = rule_line-free_of letter o l h in
    (
      parse_rule-stripped letter o (rule_line letter o) l h
          (strip_comment-free (rule_line letter o) plain),
      parse_rule-stripped letter o (rule_line letter o ++ b'#' ∷ comment) l h
          (strip_comment-cut (rule_line letter o) comment plain),
    )
