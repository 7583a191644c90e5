-- ===== src/Socks/Proxy/Client.antt =====
-- `handle_client` from the first byte of a connection on.
use network_programming.Base.{
  ℕ, true, false, some, Text, ◌==◌, ◌≡◌, arith, ◌⊎◌, inl, inr, Option-cases, Bool-cases,
}
use network_programming.Socks.Firewall.{firewall_allows}
use network_programming.Socks.Request.{SocksRequest, read_socks_request}
use network_programming.Socks.Proxy.Safety.{
  start, opens_or_relays, handle_connect_guard, handle_bind_guard,
}
use network_programming.Socks.Proxy.{
  Destination, Net, ok, thrown, run_of, time_exceeded, write_socks_reply, resolve_destination,
  dispatch, supported, serve_request, handle_client,
}

-- Working out the destination is not visible from outside, and reads no clock.
resolve_destination-run :
    (request : SocksRequest) (net : Net)
    → (resolve_destination request net start ≡ thrown start)
      ⊎ ((d : Destination) × (resolve_destination request net start ≡ ok d start))
unfolding resolve_destination
resolve_destination-run request net = ground arith

dispatch_guard :
    (request : SocksRequest) (d : Destination) (start_time : ℕ) (net : Net)
    → opens_or_relays (run_of (dispatch request d start_time net start)).trace ≡ true
    → (time_exceeded start_time (net.clock 0) ≡ false)
      × (firewall_allows net.conf request.cd d.ip ≡ true)
unfolding dispatch
dispatch_guard request d start_time net h = elim (Bool-cases (request.cd == 1)) [
  | inl e ↦ let g = handle_connect_guard request d start_time net (ground arith) in (g.0, g.1)
  | inr e ↦ let g = handle_bind_guard request d start_time net (ground arith) in (g.6, g.8)
]

-- What must hold of a request that is served: the version and the command, and a destination that
-- the resolver or the request gives and that the firewall allows within the time limit.
pub record IsServed (start_time : ℕ) (net : Net) (request : SocksRequest) : Type 0 where
  pub version : request.vn ≡ 4
  pub command : (request.cd ≡ 1) ⊎ (request.cd ≡ 2)
  pub destination : Destination
  pub resolved : resolve_destination request net start ≡ ok destination start
  pub in_time : time_exceeded start_time (net.clock 0) ≡ false
  pub permitted : firewall_allows net.conf request.cd destination.ip ≡ true

serve_request_guard :
    (request : SocksRequest) (start_time : ℕ) (net : Net)
    → opens_or_relays (run_of (serve_request start_time request net start)).trace ≡ true
    → IsServed start_time net request
unfolding serve_request write_socks_reply supported
serve_request_guard request start_time net h = elim (Bool-cases (supported request)) [
  | inr e ↦ absurd (ground arith)
  | inl e ↦ elim (resolve_destination-run request net) [
    | inl r ↦ absurd (ground arith)
    | inr (d, r) ↦
        let g = dispatch_guard request d start_time net (ground arith) in
        record {
          version = ground arith;
          command = ground arith;
          destination = d;
          resolved = r;
          in_time = g.0;
          permitted = g.1;
        }
  ]
]

-- Whatever bytes a client sends, the proxy connects to nothing and relays nothing for it unless the
-- bytes begin with a complete request of version 4 whose command is CONNECT or BIND, the destination
-- could be resolved, the time limit is kept, and the firewall allows that destination for that
-- command.
pub handle_client_guard :
    (start_time : ℕ) (stream : Text) (net : Net)
    → opens_or_relays (run_of (handle_client start_time stream net start)).trace ≡ true
    → (request : SocksRequest) × (rest : Text) × (read_socks_request stream ≡ some (request, rest))
      × IsServed start_time net request
unfolding handle_client
handle_client_guard start_time stream net h = elim (Option-cases (read_socks_request stream)) [
  | inl e ↦ absurd (ground arith)
  | inr ((request, rest), e) ↦
      (request, rest, e, serve_request_guard request start_time net (ground arith))
]
