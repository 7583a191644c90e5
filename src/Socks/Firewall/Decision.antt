-- ===== src/Socks/Firewall/Decision.antt =====
-- What the decision of the firewall means.
use network_programming.Base.{
  ℕ, true, List, [], ◌∷◌, Option, some, ◌≡◌, ◌↔◌, arith, Text, inl, inr, Bool-cases, ap, to_string,
  ◌∙◌, sym,
}
use network_programming.Socks.Address.{Ip, IsIp, ip_to_string, split-ip_to_string}
use network_programming.Socks.Firewall.{
  FirewallRule, Octets, Permits, Some, here, there, rule_allows, rule_allows_sound,
  rule_allows_complete, rules_allow, rules_allow_step, allows_octets, octets_of, firewall_allows,
  load_firewall_rules, four_parts,
}

rules_allow_sound :
    (command : ℕ) (dst : Octets) (rs : List FirewallRule)
    → rules_allow command dst rs ≡ true
    → Some (Permits command dst) rs
rules_allow_sound command dst [] h = absurd (false_ne h)
  where
    false_ne : rules_allow command dst [] ≡ true → ⊥
    false_ne e = unfold rules_allow in cc
rules_allow_sound command dst (r ∷ rs) h = elim (Bool-cases (rule_allows command dst r)) [
  | inl hit ↦ here (rule_allows_sound command dst r hit)
  | inr miss ↦
      there (rules_allow_sound command dst rs (ground (arith, rules_allow_step command dst r rs)))
]

rules_allow_complete :
    (command : ℕ) (dst : Octets) {rs : List FirewallRule}
    → Some (Permits command dst) rs
    → rules_allow command dst rs ≡ true
rules_allow_complete command dst (here {r} {rs} p) =
    ground (arith, rules_allow_step command dst r rs, rule_allows_complete command dst r p)
rules_allow_complete command dst (there {r} {rs} s) =
    ground (arith, rules_allow_step command dst r rs, rules_allow_complete command dst s)

-- For a dotted address the firewall decides by the octets of that address.
abbrev pub octets_of_ip : Ip → Octets
octets_of_ip ip = record {
  a = to_string ip.0;
  b = to_string ip.1;
  c = to_string ip.2;
  d = to_string ip.3;
}

octets_of-ip_to_string : (ip : Ip) → IsIp ip → octets_of (ip_to_string ip) ≡ some (octets_of_ip ip)
unfolding octets_of
octets_of-ip_to_string ip h = ap four_parts (split-ip_to_string ip h)

-- For every configuration, command and IPv4 address, the firewall allows the dotted address exactly
-- when some loaded rule is for that command and each of its four octets is the wildcard or the
-- decimal text of the corresponding byte.
pub firewall_allows_iff :
    (conf : Option Text) (command : ℕ) (ip : Ip)
    → IsIp ip
    → (firewall_allows conf command (ip_to_string ip) ≡ true)
      ↔ Some (Permits command (octets_of_ip ip)) (load_firewall_rules conf)
unfolding firewall_allows
firewall_allows_iff conf command ip h = (
  λ e. rules_allow_sound command (octets_of_ip ip) (load_firewall_rules conf) (
      sym (ap (allows_octets command (load_firewall_rules conf)) (octets_of-ip_to_string ip h))
      ∙ e),
  λ s.
      ap (allows_octets command (load_firewall_rules conf)) (octets_of-ip_to_string ip h)
      ∙ rules_allow_complete command (octets_of_ip ip) s,
)
