-- ===== src/Socks/Proxy.antt =====
-- socks_server.cpp: what the child process does for one client. The sockets, the resolver and the
-- clock belong to Boost.Asio and the system: a record of their answers, one per call, is an
-- argument of every operation, and the calls that the outside can see are recorded in order.
mod Process
pub mod Safety
pub mod Client
use network_programming.Base.{
  ℕ, suc, ◌-◌, Bool, true, false, not, ◌||◌, ◌&&◌, List, [], ◌∷◌, ◌++◌, Option, none, some, Text,
  codes, text_eq, ltb, ◌==◌, if◌then◌else◌, is_empty,
}
use network_programming.Socks.Firewall.{connect_command, bind_command, firewall_allows}
use network_programming.Socks.Reply.{reply_granted, reply_rejected, socks_reply}
pub use Process.*
use network_programming.Socks.Request.{SocksRequest, read_socks_request}

abbrev pub socks_version : ℕ
socks_version = 4

-- Destination: the endpoint to connect to, and the address that the firewall is asked about.
pub record Destination : Type 0 where
  pub endpoint : Endpoint
  pub ip : Text

-- Twenty seconds after the start, or with a clock that went back.
unfoldable pub time_exceeded : ℕ → ℕ → Bool
time_exceeded start_time seconds = ltb seconds start_time || ltb 20 (seconds - start_time)

unfoldable pub is_time_limit_exceeded : ℕ → Child Bool
unfolding time_exceeded
is_time_limit_exceeded start_time = do seconds ← now; return (time_exceeded start_time seconds)

-- boost::asio::write throws where it fails; the packet then does not reach the client.
write_packet : ℕ → Text → Child (Unit {0})
write_packet code packet net run =
    let counted = record run { writes = suc run.writes } in
    if net.write_succeeds run.writes
    then event (replied code packet) net counted
    else thrown counted

unfoldable pub write_socks_reply : ℕ → ℕ → Text → Child (Unit {0})
unfolding write_packet
write_socks_reply reply port ip = do
  packet ← from_option (socks_reply reply port ip)
  write_packet reply packet

abbrev no_ip : Text
no_ip = codes "0.0.0.0"

-- remote_endpoint throws where the client's connection is gone.
abbrev print_server_message : SocksRequest → Text → Text → Child (Unit {0})
print_server_message request dst_ip reply = do
  source ← remote_endpoint
  event (logged source dst_ip request.dst_port request.cd reply)

unfoldable pub reject : SocksRequest → Destination → ℕ → Text → Child (Unit {0})
unfolding write_socks_reply
reject request destination port ip = do
  write_socks_reply reply_rejected port ip
  print_server_message request destination.ip (codes "Reject")

-- relay_bidirectional; its two threads are the subject of Relay.
abbrev relay_bidirectional : ℕ → Child (Unit {0})
relay_bidirectional start_time = event (relayed start_time)

abbrev connect : Endpoint → Child Bool
connect endpoint net run =
    let connected = net.connects endpoint in
    if connected
    then ok true (record run { trace = run.trace ++ opened endpoint ∷ [] })
    else ok false run

accept_connect : SocksRequest → Destination → ℕ → Child (Unit {0})
unfolding write_socks_reply
accept_connect request destination start_time = do
  write_socks_reply reply_granted 0 no_ip
  print_server_message request destination.ip (codes "Accept")
  relay_bidirectional start_time

abbrev allowed : SocksRequest → Destination → Child Bool
allowed request destination net run = ok (firewall_allows net.conf request.cd destination.ip) run

connect_or_reject : SocksRequest → Destination → ℕ → Child (Unit {0})
unfolding accept_connect reject
connect_or_reject request destination start_time = do
  connected ← connect destination.endpoint
  if connected
      then accept_connect request destination start_time
      else reject request destination 0 no_ip

connect_if_allowed : SocksRequest → Destination → ℕ → Child (Unit {0})
unfolding connect_or_reject reject
connect_if_allowed request destination start_time = do
  permitted ← allowed request destination
  if permitted
      then connect_or_reject request destination start_time
      else reject request destination 0 no_ip

unfoldable pub handle_connect : SocksRequest → Destination → ℕ → Child (Unit {0})
unfolding is_time_limit_exceeded connect_if_allowed
handle_connect request destination start_time = do
  expired ← is_time_limit_exceeded start_time
  if expired
      then reject request destination 0 no_ip
      else connect_if_allowed request destination start_time

-- The peer that connected is checked, and the second reply and the relay follow.
check_peer : SocksRequest → Destination → ℕ → Endpoint → Child (Unit {0})
unfolding write_socks_reply reject
check_peer request destination start_time peer =
    if not (text_eq peer.ip destination.ip)
    then reject request destination peer.port peer.ip
    else (do
      write_socks_reply reply_granted peer.port peer.ip
      print_server_message request destination.ip (codes "Accept")
      relay_bidirectional start_time)

-- The body of the `try` block.
bind_session : SocksRequest → Destination → ℕ → Child (Unit {0})
unfolding is_time_limit_exceeded check_peer
bind_session request destination start_time net =
    (do
      bound ← from_option net.listens
      write_socks_reply reply_granted bound.port bound.ip
      peer ← from_option net.accepts
      expired ← is_time_limit_exceeded start_time
      if expired
          then reject request destination peer.port peer.ip
          else check_peer request destination start_time peer)
      net

bind_if_allowed : SocksRequest → Destination → ℕ → Child (Unit {0})
unfolding bind_session
bind_if_allowed request destination start_time = do
  permitted ← allowed request destination
  if permitted
      then try (bind_session request destination start_time) (reject request destination 0 no_ip)
      else reject request destination 0 no_ip

unfoldable pub handle_bind : SocksRequest → Destination → ℕ → Child (Unit {0})
unfolding is_time_limit_exceeded bind_if_allowed
handle_bind request destination start_time = do
  expired ← is_time_limit_exceeded start_time
  if expired
      then reject request destination 0 no_ip
      else bind_if_allowed request destination start_time

-- The first IPv4 endpoint that the resolver gives.
first_v4 : List Endpoint → Option Destination
first_v4 [] = none
first_v4 (e ∷ es) =
    let later = first_v4 es in if e.is_v4 then some (record { endpoint = e; ip = e.ip }) else later

-- A request with a domain name is resolved; the other addresses go as they are.
unfoldable pub resolve_destination : SocksRequest → Child Destination
unfolding first_v4
resolve_destination request net =
    (if not (is_empty request.domain_name)
        then (do
          endpoints ← from_option (net.resolve request.domain_name request.dst_port)
          from_option (first_v4 endpoints))
        else return (record {
          endpoint = record { is_v4 = true; ip = request.dst_ip; port = request.dst_port };
          ip = request.dst_ip;
        }))
      net

dispatch : SocksRequest → Destination → ℕ → Child (Unit {0})
dispatch request destination start_time =
    if request.cd == connect_command
    then handle_connect request destination start_time
    else handle_bind request destination start_time

supported : SocksRequest → Bool
supported request =
    request.vn == socks_version && (request.cd == connect_command || request.cd == bind_command)

serve_request : ℕ → SocksRequest → Child (Unit {0})
unfolding dispatch resolve_destination supported
serve_request start_time request =
    if not (supported request)
    then write_socks_reply reply_rejected 0 no_ip
    else (do destination ← resolve_destination request; dispatch request destination start_time)

-- `handle_client` on the bytes that the client sends; the start time of the client's address was
-- read before. An exception ends the process quietly.
unfoldable pub handle_client : ℕ → Text → Child (Unit {0})
unfolding serve_request
handle_client start_time stream =
    try
      (do (request, _) ← from_option (read_socks_request stream); serve_request start_time request)
      (return tt)
