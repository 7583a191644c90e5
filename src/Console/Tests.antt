-- ===== src/Console/Tests.antt =====
-- Runs of the console on concrete input (those of tests/test_components.cpp among them), and each
-- theorem at an input that meets its hypotheses.
use network_programming.Base.{
  suc, true, List, [], ◌∷◌, ◌++◌, none, some, Text, codes, ◌≡◌, refl, length, all, to_string,
}
use network_programming.Console.Cgi.Order.{
  calls, enqueues, completes, closes, start, Inv, calls-start-Inv,
}
use network_programming.Console.Escape.Html.{without_cr, html_read}
use network_programming.Console.Escape.Js.{js_read}
use network_programming.Console.Escape.Script.{
  opening, markup, is_tag_free, make_console_script-shows,
}
use network_programming.Console.Escape.{html_escape, js_string_escape, make_console_script}
use network_programming.Console.Http.Laws.{browser_request, parse-browser_request}
use network_programming.Console.Http.{parse_http_request}
use network_programming.Console.Prompt.{has_prompt, prompt_arrives, prompt_arrives-flatten}
use network_programming.Console.Query.Laws.{Fields, render_query, param-parse_query_map}
use network_programming.Console.Query.{
  RemoteSessionConfig, param, parse_query_map, parse_remote_sessions,
}
use network_programming.Console.Session.Trace.{run-start-Inv}
use network_programming.Console.Session.Trace
use network_programming.Console.Session.{new_session, run, resolved, connected, read, wrote}
use network_programming.Console.Session
use network_programming.Console.Url.{url_decode}

abbrev local_host : Text
local_host = codes "local%68ost+1%2"

decoded : url_decode local_host ≡ codes "localhost 1%2"
unfolding url_decode
decoded = refl

abbrev fields : Fields
fields =
    (codes "h0", codes "localhost")
    ∷ (codes "p0", codes "7000")
    ∷ (codes "f0", codes "t 1.txt")
    ∷ (codes "p0", codes "7001")
    ∷ []

param-parse_query_map_example :
    param (parse_query_map (render_query fields)) (codes "p0") ≡ codes "7001"
param-parse_query_map_example =
    param-parse_query_map fields (codes "p0")
      (refl, refl, (refl, refl, (refl, refl, (refl, refl, tt))))

abbrev query : Text
query = codes "h0=local%68ost&p0=7000&f0=t%201.txt&h1=&p1=&f1=&h2=remote&p2=7002&f2=t2.txt"

sessions_of_query :
    parse_remote_sessions query
    ≡ record { host = codes "localhost"; port = codes "7000"; file = codes "t 1.txt" }
      ∷ record { host = codes "remote"; port = codes "7002"; file = codes "t2.txt" }
      ∷ []
unfolding parse_remote_sessions parse_query_map url_decode to_string
sessions_of_query = refl

abbrev content : Text
content = codes "% <tag> 'quoted' \\ slash\n"

script :
    make_console_script 2 content true
    ≡ codes
        "<script>document.getElementById('s2').innerHTML += '<b>% &lt;tag&gt; &#39;quoted&#39; \\\\ slash&NewLine;</b>';</script>\n"
unfolding make_console_script html_escape js_string_escape to_string
script = refl

make_console_script-shows_example :
    (literal : Text) × (make_console_script 2 content true ≡ opening 2 ++ literal)
    × (js_read literal ≡ some (markup content true, codes ";</script>\n"))
    × (all is_tag_free (js_string_escape (html_escape content)) ≡ true)
    × (html_read (suc (length content)) (html_escape content) ≡ some (without_cr content))
make_console_script-shows_example = make_console_script-shows 2 content true

abbrev chunks : List Text
chunks = codes "bin:.\n%" ∷ codes " " ∷ []

prompt_arrives-flatten_example : prompt_arrives [] chunks ≡ has_prompt (codes "bin:.\n% ")
prompt_arrives-flatten_example = prompt_arrives-flatten chunks

abbrev config : RemoteSessionConfig
config = record { host = codes "remote"; port = codes "7002"; file = codes "t2.txt" }

run-start-Inv_example : Trace.InvOf (some (codes "ls\nexit\n")) (
    run
      (Session.start (new_session config 0) (some (codes "ls\nexit\n")))
      (resolved none ∷ connected none ∷ read (some (codes "% ")) ∷ wrote true ∷ read none ∷ []))
run-start-Inv_example = run-start-Inv config 0 (some (codes "ls\nexit\n")) _

calls-start-Inv_example :
    Inv (calls start (enqueues (codes "a") ∷ enqueues (codes "b") ∷ completes ∷ closes ∷ []))
calls-start-Inv_example =
    calls-start-Inv (enqueues (codes "a") ∷ enqueues (codes "b") ∷ completes ∷ closes ∷ [])

abbrev panel_request : Text
panel_request =
    browser_request (codes "GET") (codes "/panel.cgi") (codes "a=1") (codes "HTTP/1.1")
      ((codes "Accept", codes " */*") ∷ []) (codes "localhost:7000")
      ((codes "DNT", codes " 1") ∷ [])

parse-browser_request_example : parse_http_request panel_request ≡ record {
  method = codes "GET";
  uri = codes "/panel.cgi?a=1";
  target = codes "/panel.cgi?a=1";
  path = codes "/panel.cgi";
  query = codes "a=1";
  protocol = codes "HTTP/1.1";
  host = codes "localhost:7000";
}
parse-browser_request_example =
    parse-browser_request (codes "GET") (codes "/panel.cgi") (codes "a=1") (codes "HTTP/1.1")
      ((codes "Accept", codes " */*") ∷ []) (codes "localhost:7000")
      ((codes "DNT", codes " 1") ∷ []) (refl, refl) (refl, refl) (refl, refl) refl
      ((refl, refl, refl, refl), tt) refl refl ((refl, refl, refl, refl), tt)

abbrev hostile : RemoteSessionConfig
hostile = record { host = codes "<script>"; port = codes "80"; file = codes "t1.txt" }
