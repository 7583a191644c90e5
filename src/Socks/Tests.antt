-- ===== src/Socks/Tests.antt =====
-- Runs of the proxy on concrete input, and each theorem at an input that meets its hypotheses.
use network_programming.Base.{
  ◌+◌, wrap, subst, sym, true, false, List, [], ◌∷◌, ◌++◌, some, Text, codes, text_eq, ◌≡◌, refl,
  arith, length, inl, inr, stoi, to_string, ◌==◌, ℤ,
}
use network_programming.Socks.Address.{ip_to_string, is_socks4a_ip, parse_ipv4}
use network_programming.Socks.Firewall.Decision.{firewall_allows_iff, octets_of_ip}
use network_programming.Socks.Firewall.Parsing.{parse_rule-rule_line}
use network_programming.Socks.Firewall.{
  Octets, Permits, Some, here, parse_rule, load_firewall_rules, firewall_allows,
}
use network_programming.Socks.Proxy.Client.{IsServed, handle_client_guard}
use network_programming.Socks.Proxy.Safety.{
  start, handle_connect-trace, handle_bind_guard, connects_and_relays,
}
use network_programming.Socks.Proxy.{
  replied, logged, relayed, Net, Endpoint, Destination, run_of, time_exceeded, handle_connect,
  handle_bind, handle_client, resolve_destination, write_socks_reply,
}
use network_programming.Socks.Relay.{
  Round, complete, cut_after, running, relay_stream, Relays, relay_stream-Relays,
}
use network_programming.Socks.Reply.{socks_reply, accepts_reply, decode-socks_reply, decode_reply}
use network_programming.Socks.Request.{
  SocksRequest, request_for, read_socks_request, read_null_terminated, build_socks4a_request,
  read-build_socks4a_request,
}

abbrev host : Text
host = codes "nplinux4"

abbrev request_bytes : Text
request_bytes = 4 ∷ 1 ∷ 27 ∷ 88 ∷ 0 ∷ 0 ∷ 0 ∷ 1 ∷ 0 ∷ (host ++ 0 ∷ [])

built : build_socks4a_request host (codes "7000") ≡ some request_bytes
unfolding build_socks4a_request stoi
built = refl

read-build_socks4a_request_example :
    (port : ℤ) × (stoi (codes "7000") ≡ some port)
    × (read_socks_request (request_bytes ++ codes "ls")
        ≡ some (request_for host (wrap 65536 port), codes "ls"))
read-build_socks4a_request_example =
    read-build_socks4a_request host (codes "7000") (codes "ls") request_bytes refl built

decode-socks_reply_example :
    (packet : Text) × (socks_reply 90 7000 (ip_to_string (10, 0, 0, 1)) ≡ some packet)
    × (length packet ≡ 8)
    × (decode_reply packet ≡ some (record { code = 90; port = 7000; ip = (10, 0, 0, 1) }))
    × (accepts_reply packet ≡ (90 == 90))
decode-socks_reply_example = decode-socks_reply 90 7000 (10, 0, 0, 1) (omega arith) (omega arith)

abbrev conf : Text
conf = codes "# campus only\npermit c 140.113.*.*\npermit b *.*.*.* # FTP\n"

abbrev campus : Octets
campus = record { a = codes "140"; b = codes "113"; c = codes "*"; d = codes "*" }

rules_of_conf :
    load_firewall_rules (some conf)
    ≡ record { command = 1; octets = campus }
      ∷ record {
        command = 2;
        octets = record { a = codes "*"; b = codes "*"; c = codes "*"; d = codes "*" };
      }
      ∷ []
unfolding load_firewall_rules parse_rule
rules_of_conf = refl

firewall_allows_iff_example : firewall_allows (some conf) 1 (ip_to_string (140, 113, 5, 6)) ≡ true
unfolding to_string
firewall_allows_iff_example = (firewall_allows_iff (some conf) 1 (140, 113, 5, 6) (omega arith)).1 (
    subst (Some (Permits 1 (octets_of_ip (140, 113, 5, 6)))) (sym rules_of_conf) (
      here (record {
        same_command = refl;
        first = inr refl;
        second = inr refl;
        third = inl refl;
        fourth = inl refl;
      })))

outside_campus : firewall_allows (some conf) 1 (codes "8.8.8.8") ≡ false
unfolding firewall_allows load_firewall_rules parse_rule
outside_campus = refl

parse_rule-rule_line_example :
    (parse_rule (codes "permit c 140.113.*.*") ≡ some (record { command = 1; octets = campus }))
    × (parse_rule (codes "permit c 140.113.*.*# campus")
        ≡ some (record { command = 1; octets = campus }))
parse_rule-rule_line_example =
    parse_rule-rule_line b'c' campus (codes " campus") (inl refl) (record {
      first = (refl, refl);
      second = (refl, refl);
      third = (refl, refl);
      fourth = (refl, refl);
    })

abbrev server : Endpoint
server = record { is_v4 = true; ip = codes "140.113.5.6"; port = 80 }

abbrev target : Destination
target = record { endpoint = server; ip = codes "140.113.5.6" }

abbrev client : Endpoint
client = record { is_v4 = true; ip = codes "140.113.1.1"; port = 40000 }

abbrev net : Net
net = record {
  clock = λ k. 100 + k;
  write_succeeds = λ k. true;
  conf = some conf;
  resolve = λ name port. some (server ∷ []);
  connects = λ e. true;
  listens = some (record { is_v4 = true; ip = codes "10.0.0.1"; port = 6000 });
  accepts = some server;
  remote = λ k. some client;
}

abbrev connect_request : SocksRequest
connect_request = request_for host 80

abbrev bind_request : SocksRequest
bind_request = record connect_request { cd = 2 }

handle_connect-trace_example :
    (run_of (handle_connect connect_request target 100 net start)).trace
    ≡ connects_and_relays (some client) connect_request target 100
unfolding time_exceeded firewall_allows load_firewall_rules parse_rule
handle_connect-trace_example = handle_connect-trace connect_request target 100 net refl

handle_bind_guard_example :
    (bound : Endpoint) × (peer : Endpoint) × (first : Text) × (second : Text) × (source : Endpoint)
    × (net.remote 0 ≡ some source)
    × (time_exceeded 100 100 ≡ false)
    × (time_exceeded 100 101 ≡ false)
    × (firewall_allows (some conf) 2 (codes "140.113.5.6") ≡ true)
    × (net.listens ≡ some bound)
    × (net.accepts ≡ some peer)
    × (text_eq peer.ip target.ip ≡ true)
    × (socks_reply 90 bound.port bound.ip ≡ some first)
    × (socks_reply 90 peer.port peer.ip ≡ some second)
    × ((run_of (handle_bind bind_request target 100 net start)).trace
        ≡ replied 90 first
          ∷ replied 90 second
          ∷ logged source target.ip bind_request.dst_port 2 (codes "Accept")
          ∷ relayed 100
          ∷ [])
unfolding handle_bind time_exceeded firewall_allows load_firewall_rules parse_rule write_socks_reply
    socks_reply parse_ipv4 stoi
handle_bind_guard_example = handle_bind_guard bind_request target 100 net refl

handle_client_guard_example :
    (request : SocksRequest) × (rest : Text) × (read_socks_request request_bytes
      ≡ some (request, rest))
    × IsServed 100 net request
unfolding handle_client is_socks4a_ip read_socks_request read_null_terminated resolve_destination
    handle_connect time_exceeded firewall_allows load_firewall_rules parse_rule write_socks_reply
    socks_reply parse_ipv4 stoi
handle_client_guard_example = handle_client_guard 100 request_bytes net refl

abbrev rounds : List Round
rounds =
    record { before = 100; input = some (codes "ab"); after = 100; written = complete }
    ∷ record { before = 110; input = some (codes "cd"); after = 115; written = cut_after 1 }
    ∷ []

relay_stream-Relays_example : Relays 100 running rounds (relay_stream 100 running rounds)
relay_stream-Relays_example = relay_stream-Relays 100 running rounds

relayed_in_time :
    relay_stream 100 running rounds
    ≡ record { sent = codes "abc"; input_open = false; output_open = false }
unfolding relay_stream time_exceeded
relayed_in_time = refl
