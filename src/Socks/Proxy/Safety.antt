-- ===== src/Socks/Proxy/Safety.antt =====
-- What the proxy opens, relays and answers.
use network_programming.Base.{
  ℕ, ◌+◌, ◌≤◌, Bool, true, false, not, ◌&&◌, List, [], ◌∷◌, Option, none, some, Text, codes,
  text_eq, stoi, refl, if◌then◌else◌, ◌≡◌, arith, ◌↔◌,
}
use network_programming.Socks.Firewall.{firewall_allows}
use network_programming.Socks.Reply.{socks_reply}
use network_programming.Socks.Address.{parse_ipv4}
use network_programming.Socks.Request.{SocksRequest}
use network_programming.Socks.Proxy.{
  Destination, Endpoint, Net, Run, Event, replied, logged, opened, relayed, run_of, time_exceeded,
  handle_connect, handle_bind, write_socks_reply,
}

-- The time limit is passed exactly when the clock reads less than the start or more than twenty
-- seconds after it.
pub time_exceeded_iff :
    (start_time seconds : ℕ)
    → (time_exceeded start_time seconds ≡ false)
      ↔ ((start_time ≤ seconds) × (seconds ≤ start_time + 20))
unfolding time_exceeded
time_exceeded_iff start_time seconds = ground arith

abbrev pub start : Run
start = record { clock_reads = 0; writes = 0; remote_reads = 0; trace = [] }

abbrev pub opens_or_relays : List Event → Bool
opens_or_relays [] = false
opens_or_relays (opened e ∷ es) = true
opens_or_relays (relayed t ∷ es) = true
opens_or_relays (_ ∷ es) = opens_or_relays es

abbrev no_ip : Text
no_ip = codes "0.0.0.0"

abbrev zero_packet : ℕ → Text
zero_packet reply = 0 ∷ reply ∷ 0 ∷ 0 ∷ 0 ∷ 0 ∷ 0 ∷ 0 ∷ []

socks_reply-no_ip : (reply : ℕ) → socks_reply reply 0 no_ip ≡ some (zero_packet reply)
unfolding socks_reply parse_ipv4 stoi
socks_reply-no_ip reply = refl

-- What follows a reply: the message, if the client's address can still be read, and what comes behind.
abbrev pub logged_then :
    Option Endpoint → SocksRequest → Destination → Text → List Event → List Event
logged_then none request destination reply next = []
logged_then (some source) request destination reply next =
    logged source destination.ip request.dst_port request.cd reply ∷ next

abbrev pub rejects : Option Endpoint → SocksRequest → Destination → List Event
rejects remote request destination =
    replied 91 (zero_packet 91) ∷ logged_then remote request destination (codes "Reject") []

abbrev pub connects_and_relays : Option Endpoint → SocksRequest → Destination → ℕ → List Event
connects_and_relays remote request destination start_time =
    opened destination.endpoint
    ∷ replied 90 (zero_packet 90)
    ∷ logged_then remote request destination (codes "Accept") (relayed start_time ∷ [])

-- Where the reply can be written, CONNECT is one of two runs. If the time limit is kept, the
-- firewall allows the destination and the connection succeeds, the proxy connects, answers 90, logs
-- Accept with the client's address and relays, in this order; otherwise it answers 91, logs Reject with
-- that address and does nothing else. Where the address cannot be read any more, the run ends behind
-- the reply.
pub handle_connect-trace :
    (request : SocksRequest) (destination : Destination) (start_time : ℕ) (net : Net)
    → net.write_succeeds 0 ≡ true
    → (run_of (handle_connect request destination start_time net start)).trace ≡ (
        if not (time_exceeded start_time (net.clock 0))
          && firewall_allows net.conf request.cd destination.ip
          && net.connects destination.endpoint
        then connects_and_relays (net.remote 0) request destination start_time
        else rejects (net.remote 0) request destination)
unfolding handle_connect write_socks_reply
handle_connect-trace request destination start_time net w =
    ground (arith, socks_reply-no_ip 90, socks_reply-no_ip 91)

-- Also where writes fail, CONNECT opens or relays nothing unless the time limit is kept, the firewall
-- allows the destination, and the connection succeeds.
pub handle_connect_guard :
    (request : SocksRequest) (destination : Destination) (start_time : ℕ) (net : Net)
    → opens_or_relays (run_of (handle_connect request destination start_time net start)).trace
      ≡ true
    → (time_exceeded start_time (net.clock 0) ≡ false)
      × (firewall_allows net.conf request.cd destination.ip ≡ true)
      × (net.connects destination.endpoint ≡ true)
unfolding handle_connect write_socks_reply
handle_connect_guard request destination start_time net = ground arith

-- BIND relays only if both clock readings keep the time limit, the firewall allows the destination,
-- an acceptor was bound and a peer came in from the destination's own address; and then the client
-- has got two replies with code 90, the first for the acceptor and the second for the peer, the
-- Accept line has been logged, and the relay comes last.
pub handle_bind_guard :
    (request : SocksRequest) (destination : Destination) (start_time : ℕ) (net : Net)
    → opens_or_relays (run_of (handle_bind request destination start_time net start)).trace ≡ true
    → (bound : Endpoint) × (peer : Endpoint) × (first : Text) × (second : Text)
      × (source : Endpoint) × (net.remote 0 ≡ some source)
      × (time_exceeded start_time (net.clock 0) ≡ false)
      × (time_exceeded start_time (net.clock 1) ≡ false)
      × (firewall_allows net.conf request.cd destination.ip ≡ true)
      × (net.listens ≡ some bound)
      × (net.accepts ≡ some peer)
      × (text_eq peer.ip destination.ip ≡ true)
      × (socks_reply 90 bound.port bound.ip ≡ some first)
      × (socks_reply 90 peer.port peer.ip ≡ some second)
      × ((run_of (handle_bind request destination start_time net start)).trace
          ≡ replied 90 first
            ∷ replied 90 second
            ∷ logged source destination.ip request.dst_port request.cd (codes "Accept")
            ∷ relayed start_time
            ∷ [])
unfolding handle_bind write_socks_reply
handle_bind_guard request destination start_time net h = ground arith
