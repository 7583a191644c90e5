-- ===== src/Socks/Address.antt =====
-- socks_server.cpp: the IPv4 addresses of requests and replies, as bytes and as dotted text.
use network_programming.Base.{
  ◌>>=◌, ℕ, ◌<◌, Bool, true, false, not, ◌&&◌, List, [], ◌∷◌, ◌++◌, Option, some, ◌≡◌, refl, arith,
  Text, split, ◌==◌, is_digit, is_empty, all, free_of, to_string, stoi, wrap, split_go-append,
  split_go-free_of, stoi-to_string, to_string-plain,
}

-- std::array<unsigned char, 4>
abbrev pub Ip : Type 0
Ip = ℕ × ℕ × ℕ × ℕ

abbrev pub IsIp : Ip → Type 0
IsIp ip = (ip.0 < 256) × (ip.1 < 256) × (ip.2 < 256) × (ip.3 < 256)

unfoldable pub ip_to_string : Ip → Text
ip_to_string (a, b, c, d) =
    to_string a ++ (b'.' ∷ (to_string b ++ (b'.' ∷ (to_string c ++ (b'.' ∷ to_string d)))))

unfoldable pub is_socks4a_ip : Ip → Bool
is_socks4a_ip (a, b, c, d) = a == 0 && b == 0 && c == 0 && not (d == 0)

-- static_cast<unsigned char>(std::stoi(part)); `none` is the exception.
unfoldable pub byte_of : Text → Option ℕ
byte_of part = do n ← stoi part; some (wrap 256 n)

unfoldable pub parse_parts : List Text → Option Ip
unfolding byte_of
parse_parts (p ∷ q ∷ r ∷ s ∷ []) = do
  a ← byte_of p
  b ← byte_of q
  c ← byte_of r
  d ← byte_of s
  some (a, b, c, d)
parse_parts _ = some (0, 0, 0, 0)

-- `none` is an exception of std::stoi; a text without four parts gives 0.0.0.0.
unfoldable pub parse_ipv4 : Text → Option Ip
unfolding parse_parts
parse_ipv4 ip = parse_parts (split b'.' ip)

all_digits-free_of : (s : Text) → all is_digit s ≡ true → free_of b'.' s ≡ true
all_digits-free_of [] h = refl
all_digits-free_of (c ∷ s) h = ground (arith, all_digits-free_of s)

to_string-free_of : (n : ℕ) → n < 256 → free_of b'.' (to_string n) ≡ true
to_string-free_of n h = ground (arith, to_string-plain n, all_digits-free_of (to_string n))

to_string-ne_nil : (n : ℕ) → n < 256 → is_empty (to_string n) ≡ false
to_string-ne_nil n h = ground (arith, to_string-plain n)

byte_of-to_string : (n : ℕ) → n < 256 → byte_of (to_string n) ≡ some n
unfolding byte_of
byte_of-to_string n h = rw (stoi-to_string n (omega arith)) (ground arith)

-- The dotted text of an address splits into the texts of its four bytes.
pub split-ip_to_string :
    (ip : Ip)
    → IsIp ip
    → split b'.' (ip_to_string ip)
      ≡ to_string ip.0 ∷ to_string ip.1 ∷ to_string ip.2 ∷ to_string ip.3 ∷ []
unfolding ip_to_string
split-ip_to_string (a, b, c, d) (ha, hb, hc, hd) =
    rw
      (
        split_go-append b'.' [] (to_string a) _ (to_string-free_of a ha),
        split_go-append b'.' [] (to_string b) _ (to_string-free_of b hb),
        split_go-append b'.' [] (to_string c) _ (to_string-free_of c hc),
        split_go-free_of b'.' [] (to_string d) (to_string-free_of d hd),
        to_string-ne_nil d hd,
      )
      refl

-- The reply writer reads back every dotted address that the server prints.
pub parse_ipv4-ip_to_string : (ip : Ip) → IsIp ip → parse_ipv4 (ip_to_string ip) ≡ some ip
unfolding parse_ipv4
parse_ipv4-ip_to_string ip h = rw (split-ip_to_string ip h) (
    rw
      (
        byte_of-to_string ip.0 h.0,
        byte_of-to_string ip.1 h.1,
        byte_of-to_string ip.2 h.2,
        byte_of-to_string ip.3 h.3,
      )
      refl)
