-- ===== src/Socks/Firewall.antt =====
-- socks_server.cpp: the rules of socks.conf and the decision for one request. The text of the file
-- is an argument, `none` where it cannot be opened; each request loads the rules afresh.
pub mod Decision
pub mod Parsing
use network_programming.Base.{
  ◌>>=◌, ℕ, Bool, true, false, not, ◌&&◌, ◌||◌, List, [], ◌∷◌, ◌++◌, Option, none, some, ◌≡◌, ◌↔◌,
  ◌⊎◌, refl, arith, Text, codes, text_eq, text_eq_iff, ◌==◌, if◌then◌else◌, cut, split, read_word,
  read_char, inl, inr, Option-cases,
}
use network_programming.Socks.Address.{Ip, IsIp, ip_to_string, split-ip_to_string}

abbrev pub connect_command : ℕ
connect_command = 1

abbrev pub bind_command : ℕ
bind_command = 2

-- std::array<std::string, 4>
pub record Octets : Type 0 where
  pub a : Text
  pub b : Text
  pub c : Text
  pub d : Text

pub record FirewallRule : Type 0 where
  pub command : ℕ
  pub octets : Octets

abbrev star : Text
star = b'*' ∷ []

abbrev any_octets : Octets
any_octets = record { a = star; b = star; c = star; d = star }

-- `split(value, '.')`, where it has four parts.
abbrev four_parts : List Text → Option Octets
four_parts (a ∷ b ∷ c ∷ d ∷ []) = some (record { a = a; b = b; c = c; d = d })
four_parts _ = none

unfoldable pub octets_of : Text → Option Octets
octets_of value = four_parts (split b'.' value)

unfoldable pub strip_comment : Text → Text
strip_comment line = elim (cut b'#' line) [ none ↦ line | some (before, after) ↦ before ]

rule_for : ℕ → Octets → Option FirewallRule
rule_for command octets =
    if command == b'c'
    then some (record { command = connect_command; octets = octets })
    else if command == b'b'
    then some (record { command = bind_command; octets = octets })
    else none

-- One line of the file; `none` where the loop goes on without a rule.
unfoldable pub parse_rule : Text → Option FirewallRule
unfolding strip_comment octets_of rule_for
parse_rule line = do
  (action, after_action) ← read_word (strip_comment line)
  (command, after_command) ← read_char after_action
  (ip_pattern, _) ← read_word after_command
  octets ← (if text_eq action (codes "permit") then octets_of ip_pattern else none)
  rule_for command octets

unfoldable pub parse_rules : List Text → List FirewallRule
parse_rules [] = []
parse_rules (line ∷ lines) =
    let rules = parse_rules lines in
    elim (parse_rule line) [ none ↦ rules | some rule ↦ rule ∷ rules ]

unfoldable pub load_firewall_rules : Option Text → List FirewallRule
unfolding parse_rules
load_firewall_rules none =
    record { command = connect_command; octets = any_octets }
    ∷ record { command = bind_command; octets = any_octets }
    ∷ []
load_firewall_rules (some file) = parse_rules (split b'\n' file)

-- `rule.octets[i] != "*" && rule.octets[i] != dst_octets[i]`
abbrev mismatch : Text → Text → Bool
mismatch pattern octet = not (text_eq pattern star) && not (text_eq pattern octet)

octets_match : Octets → Octets → Bool
octets_match p o =
    if mismatch p.a o.a
    then false
    else if mismatch p.b o.b
    then false
    else if mismatch p.c o.c
    then false
    else not (mismatch p.d o.d)

rules_allow : ℕ → Octets → List FirewallRule → Bool
unfolding octets_match
rules_allow command dst [] = false
rules_allow command dst (rule ∷ rules) =
    let later = rules_allow command dst rules in
    if not (rule.command == command)
    then later
    else if octets_match rule.octets dst
    then true
    else later

allows_octets : ℕ → List FirewallRule → Option Octets → Bool
allows_octets command rules none = false
allows_octets command rules (some dst) = rules_allow command dst rules

unfoldable pub firewall_allows : Option Text → ℕ → Text → Bool
unfolding rules_allow allows_octets
firewall_allows conf command dst_ip =
    allows_octets command (load_firewall_rules conf) (octets_of dst_ip)

-- The specification: a pattern octet is the wildcard or the octet itself.
abbrev pub Covers : Text → Text → Type 0
Covers pattern octet = (pattern ≡ star) ⊎ (pattern ≡ octet)

pub record Permits (command : ℕ) (dst : Octets) (rule : FirewallRule) : Type 0 where
  pub same_command : rule.command ≡ command
  pub first : Covers rule.octets.a dst.a
  pub second : Covers rule.octets.b dst.b
  pub third : Covers rule.octets.c dst.c
  pub fourth : Covers rule.octets.d dst.d

-- Some rule of the list satisfies `P`.
pub data Some (P : FirewallRule → Type 0) : List FirewallRule → Type 0 where
  here : {r : FirewallRule} {rs : List FirewallRule} → P r → Some P (r ∷ rs)
  there : {r : FirewallRule} {rs : List FirewallRule} → Some P rs → Some P (r ∷ rs)

mismatch-Covers : (p o : Text) → mismatch p o ≡ false → Covers p o
mismatch-Covers p o h = ground (arith, text_eq_iff p star, text_eq_iff p o)

Covers-mismatch : (p o : Text) → Covers p o → mismatch p o ≡ false
Covers-mismatch p o h = ground (arith, text_eq_iff p star, text_eq_iff p o)

rule_allows : ℕ → Octets → FirewallRule → Bool
unfolding octets_match
rule_allows command dst rule = rule.command == command && octets_match rule.octets dst

rule_allows_sound :
    (command : ℕ) (dst : Octets) (r : FirewallRule)
    → rule_allows command dst r ≡ true
    → Permits command dst r
unfolding rule_allows
rule_allows_sound command dst r h = record {
  same_command = ground arith;
  first = mismatch-Covers _ _ (ground arith);
  second = mismatch-Covers _ _ (ground arith);
  third = mismatch-Covers _ _ (ground arith);
  fourth = mismatch-Covers _ _ (ground arith);
}

rule_allows_complete :
    (command : ℕ) (dst : Octets) (r : FirewallRule)
    → Permits command dst r
    → rule_allows command dst r ≡ true
unfolding rule_allows
rule_allows_complete command dst r p = ground (
  arith,
  Covers-mismatch _ _ p.first,
  Covers-mismatch _ _ p.second,
  Covers-mismatch _ _ p.third,
  Covers-mismatch _ _ p.fourth,
)

rules_allow_step :
    (command : ℕ) (dst : Octets) (r : FirewallRule) (rs : List FirewallRule)
    → rules_allow command dst (r ∷ rs) ≡ (rule_allows command dst r || rules_allow command dst rs)
unfolding rules_allow rule_allows
rules_allow_step command dst r rs = ground arith
