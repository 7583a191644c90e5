-- ===== src/Socks/Request.antt =====
-- The SOCKS4/4A request: socks_server.cpp reads it from the client's socket, and
-- SocksBatchSession of console_components.hpp builds it. The bytes that the peer sends before it
-- closes the connection are a list; reading past its end is an exception, `none`.
use network_programming.Base.{
  ◌>>=◌, ℕ, ◌+◌, ◌*◌, ◌/◌, ◌%◌, Bool, true, [], ◌∷◌, ◌++◌, Option, none, some, ◌≡◌, refl, arith,
  Text, ◌==◌, if◌then◌else◌, free_of, stoi, wrap, subst, ℤ, pos, negsuc, append-nil, append_assoc,
  ◌<◌,
}
use network_programming.Socks.Address.{Ip, ip_to_string, is_socks4a_ip}

pub record SocksRequest : Type 0 where
  pub vn : ℕ
  pub cd : ℕ
  pub dst_port : ℕ
  pub raw_dst_ip : Ip
  pub dst_ip : Text
  pub user_id : Text
  pub domain_name : Text

null_terminated_go : Text → Text → Option (Text × Text)
null_terminated_go value [] = none
null_terminated_go value (ch ∷ stream) =
    let rest = null_terminated_go (value ++ ch ∷ []) stream in
    if ch == 0 then some (value, stream) else rest

-- The text up to the next zero byte, and the bytes behind that one.
unfoldable pub read_null_terminated : Text → Option (Text × Text)
unfolding null_terminated_go
read_null_terminated stream = null_terminated_go [] stream

read_domain_name : Bool → Text → Option (Text × Text)
unfolding read_null_terminated
read_domain_name socks4a stream = if socks4a then read_null_terminated stream else some ([], stream)

-- `header[2] << 8 | header[3]`: the low byte of the first is 0, so the two bytes add up.
read_header : ℕ → ℕ → ℕ → ℕ → ℕ → ℕ → ℕ → ℕ → Text → Option (SocksRequest × Text)
unfolding read_domain_name
read_header h0 h1 h2 h3 h4 h5 h6 h7 stream = do
  (user_id, after_user) ← read_null_terminated stream
  let ip : Ip = (h4, h5, h6, h7)
  (domain_name, rest) ← read_domain_name (is_socks4a_ip ip) after_user
  some (
    record {
      vn = h0;
      cd = h1;
      dst_port = h2 * 256 % 65536 + h3;
      raw_dst_ip = ip;
      dst_ip = ip_to_string ip;
      user_id = user_id;
      domain_name = domain_name;
    },
    rest,
  )

-- The request, and the bytes that follow it in the stream.
unfoldable pub read_socks_request : Text → Option (SocksRequest × Text)
unfolding read_header
read_socks_request (h0 ∷ h1 ∷ h2 ∷ h3 ∷ h4 ∷ h5 ∷ h6 ∷ h7 ∷ stream) =
    read_header h0 h1 h2 h3 h4 h5 h6 h7 stream
read_socks_request _ = none

socks4a_bytes : Text → ℕ → Text
socks4a_bytes host port =
    4 ∷ 1 ∷ (port / 256 % 256) ∷ (port % 256) ∷ 0 ∷ 0 ∷ 0 ∷ 1 ∷ 0 ∷ (host ++ 0 ∷ [])

-- `none` is the exception of std::stoi on the configured port.
unfoldable pub build_socks4a_request : Text → Text → Option Text
unfolding socks4a_bytes
build_socks4a_request host port_text = do
  port ← stoi port_text
  some (socks4a_bytes host (wrap 65536 port))

null_terminated_go_lem :
    (value s rest : Text)
    → free_of 0 s ≡ true
    → null_terminated_go value (s ++ 0 ∷ rest) ≡ some (value ++ s, rest)
unfolding null_terminated_go
null_terminated_go_lem value [] rest h = ground (arith, append-nil value)
null_terminated_go_lem value (c ∷ s) rest h =
    ground (arith, null_terminated_go_lem (value ++ c ∷ []) s rest, append_assoc value (c ∷ []) s)

-- A text with no zero byte is read back, and the reader stops behind its terminator.
pub read_null_terminated_lem :
    (s rest : Text) → free_of 0 s ≡ true → read_null_terminated (s ++ 0 ∷ rest) ≡ some (s, rest)
unfolding read_null_terminated
read_null_terminated_lem s rest h = null_terminated_go_lem [] s rest h

abbrev pub request_for : Text → ℕ → SocksRequest
request_for host port = record {
  vn = 4;
  cd = 1;
  dst_port = port;
  raw_dst_ip = (0, 0, 0, 1);
  dst_ip = ip_to_string (0, 0, 0, 1);
  user_id = [];
  domain_name = host;
}

read-socks4a_bytes :
    (host rest : Text) (port : ℕ)
    → free_of 0 host ≡ true
    → port < 65536
    → read_socks_request (socks4a_bytes host port ++ rest) ≡ some (request_for host port, rest)
unfolding read_socks_request is_socks4a_ip socks4a_bytes
read-socks4a_bytes host rest port h small =
    rw (append_assoc host (0 ∷ []) rest, read_null_terminated_lem host rest h) (ground arith)

wrap-lt : (n : ℤ) → wrap 65536 n < 65536
wrap-lt (pos n) = omega arith
wrap-lt (negsuc n) = omega arith

abbrev ReadsBack : Text → Text → Text → Option ℤ → Type 0
ReadsBack host rest stream parsed =
    (port : ℤ) × (parsed ≡ some port)
    × (read_socks_request (stream ++ rest) ≡ some (request_for host (wrap 65536 port), rest))

ReadsBack-parsed :
    (host rest stream : Text) (parsed : Option ℤ)
    → free_of 0 host ≡ true
    → (parsed >>= λ port. some (socks4a_bytes host (wrap 65536 port))) ≡ some stream
    → ReadsBack host rest stream parsed
ReadsBack-parsed host rest stream none h built = cc
ReadsBack-parsed host rest stream (some port) h built = (
  port,
  refl,
  subst (λ s. read_socks_request (s ++ rest) ≡ some (request_for host (wrap 65536 port), rest)) (cc)
      (read-socks4a_bytes host rest (wrap 65536 port) h (wrap-lt port)),
)

-- The proxy reads, from the bytes that the console's client builds for a host with no zero byte and
-- a port text that std::stoi accepts, a CONNECT request of version 4 for that host and for the port
-- reduced to 16 bits, with no user id, and leaves exactly the bytes that follow the request.
pub read-build_socks4a_request :
    (host port_text rest stream : Text)
    → free_of 0 host ≡ true
    → build_socks4a_request host port_text ≡ some stream
    → (port : ℤ) × (stoi port_text ≡ some port)
      × (read_socks_request (stream ++ rest) ≡ some (request_for host (wrap 65536 port), rest))
unfolding build_socks4a_request
read-build_socks4a_request host port_text rest stream h built =
    ReadsBack-parsed host rest stream (stoi port_text) h built
