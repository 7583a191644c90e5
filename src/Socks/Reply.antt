-- ===== src/Socks/Reply.antt =====
-- The eight bytes that the proxy answers with (write_socks_reply of socks_server.cpp), and the test
-- that the console's client makes on them (read_socks_reply of console_components.hpp).
use network_programming.Base.{
  ℕ, ◌+◌, ◌*◌, ◌/◌, ◌%◌, ◌<◌, Bool, [], ◌∷◌, Option, none, some, ◌≡◌, refl, arith, Text, ◌==◌,
  length, false,
}
use network_programming.Socks.Address.{Ip, IsIp, ip_to_string, parse_ipv4, parse_ipv4-ip_to_string}

abbrev pub reply_granted : ℕ
reply_granted = 90

abbrev pub reply_rejected : ℕ
reply_rejected = 91

abbrev reply_bytes : ℕ → ℕ → Option Ip → Option Text
reply_bytes reply port none = none
reply_bytes reply port (some (a, b, c, d)) =
    some (0 ∷ reply ∷ (port / 256 % 256) ∷ (port % 256) ∷ a ∷ b ∷ c ∷ d ∷ [])

-- The packet; `none` is an exception from the address text.
unfoldable pub socks_reply : ℕ → ℕ → Text → Option Text
socks_reply reply port ip = reply_bytes reply port (parse_ipv4 ip)

-- The client goes on to the session when byte 1 is 90; it has read eight bytes.
unfoldable pub accepts_reply : Text → Bool
accepts_reply (_ ∷ code ∷ _) = code == 90
accepts_reply _ = false

-- What a SOCKS client reads from a reply.
pub record Reply : Type 0 where
  pub code : ℕ
  pub port : ℕ
  pub ip : Ip

unfoldable pub decode_reply : Text → Option Reply
decode_reply (_ ∷ code ∷ p ∷ q ∷ a ∷ b ∷ c ∷ d ∷ []) =
    some (record { code = code; port = p * 256 + q; ip = (a, b, c, d) })
decode_reply _ = none

-- A reply for a 16-bit port and a dotted address has eight bytes, an independent decoder reads the
-- code, the port and the address back from it, and the console's client accepts it exactly when
-- the code is 90.
pub decode-socks_reply :
    (reply port : ℕ) (ip : Ip)
    → port < 65536
    → IsIp ip
    → (packet : Text) × (socks_reply reply port (ip_to_string ip) ≡ some packet)
      × (length packet ≡ 8)
      × (decode_reply packet ≡ some (record { code = reply; port = port; ip = ip }))
      × (accepts_reply packet ≡ (reply == 90))
unfolding socks_reply decode_reply accepts_reply
decode-socks_reply reply port (a, b, c, d) small h = (
  0 ∷ reply ∷ (port / 256 % 256) ∷ (port % 256) ∷ a ∷ b ∷ c ∷ d ∷ [],
  rw (parse_ipv4-ip_to_string (a, b, c, d) h) refl,
  refl,
  ground arith,
  refl,
)
