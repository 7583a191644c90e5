-- ===== src/Console/Http.antt =====
-- The HTTP request: `parse_http_request` of console_components.cpp, and what http_server.cpp
-- (project 3) does with it.
pub mod Laws
use network_programming.Base.{
  trim_cr, ℕ, suc, Bool, true, false, not, ◌&&◌, ◌||◌, List, [], ◌∷◌, ◌++◌, Option, none, some,
  Text, codes, text_eq, ltb, leb, ◌==◌, length, map, if◌then◌else◌, is_empty, cut, split_go,
  read_word, to_string, ◌≡◌, arith, refl, Option-cases, inl, inr, ◌⊎◌, drop, ◌-◌, cut-append,
  free_of, cut-free_of, to_string,
}
use network_programming.Console.Url.{to_lower}

pub record HttpRequest : Type 0 where
  pub method : Text
  pub uri : Text
  pub target : Text
  pub path : Text
  pub query : Text
  pub protocol : Text
  pub host : Text

-- `stream >> word`, which leaves the word empty and the stream at its end where it fails. (A failed
-- stream gives nothing more, as an empty one does.)
next_word : Text → Text × Text
next_word s = elim (read_word s) [ none ↦ ([], []) | some (word, rest) ↦ (word, rest) ]

-- `target.substr(0, query_pos)` and, where there is a `?`, `target.substr(query_pos + 1)`
unfoldable pub split_target : Text → Text × Text
split_target target = elim (cut b'?' target) [
  | none ↦ (target, [])
  | some (path, query) ↦ (path, query)
]

-- while (!value.empty() && value.front() == ' ') value.erase(value.begin());
trim_front : Text → Text
trim_front [] = []
trim_front (c ∷ s) = let rest = trim_front s in if c == 32 then rest else c ∷ s

-- The header line's effect on the Host value.
header_line : Text → Text → Text
unfolding trim_front
header_line host line = elim (cut b':' line) [
  | none ↦ host
  | some (name, value) ↦
      if text_eq (map to_lower name) (codes "host") then trim_front value else host
]

-- The lines after the request line, up to the first empty one.
header_lines : Text → List Text → Text
header_lines host [] = host
header_lines host (line ∷ lines) =
    let rest = header_lines (header_line host (trim_cr line)) lines in
    if is_empty (trim_cr line) then host else rest

-- `getline` once, which ends the request line, and the lines after it.
rest_lines : List Text → List Text
rest_lines [] = []
rest_lines (line ∷ lines) = lines

-- The part of the parser behind the request line's three words.
request_of : Text → Text → Text → Text → HttpRequest
request_of method target protocol after_protocol =
    let (path, query) = split_target target in
    record {
      method = method;
      uri = target;
      target = target;
      path = path;
      query = query;
      protocol = protocol;
      host = header_lines [] (rest_lines (split_go b'\n' [] after_protocol));
    }

abbrev with_protocol : Text → Text → Text × Text → HttpRequest
with_protocol method target (protocol, after_protocol) =
    request_of method target protocol after_protocol

abbrev with_target : Text → Text × Text → HttpRequest
with_target method (target, after_target) = with_protocol method target (next_word after_target)

abbrev with_method : Text × Text → HttpRequest
with_method (method, after_method) = with_target method (next_word after_method)

unfoldable pub parse_http_request : Text → HttpRequest
unfolding next_word request_of split_target header_line trim_cr header_lines rest_lines
parse_http_request raw_request = with_method (next_word raw_request)

-- `path.find("..") != npos`
unfoldable pub has_dot_dot : Text → Bool
has_dot_dot [] = false
has_dot_dot (c ∷ []) = false
has_dot_dot (c ∷ d ∷ s) = (c == b'.' && d == b'.') || has_dot_dot (d ∷ s)

abbrev front_is : ℕ → Text → Bool
front_is c [] = false
front_is c (d ∷ s) = d == c

unfoldable pub is_valid_cgi_path : Text → Bool
unfolding has_dot_dot
is_valid_cgi_path path =
    if ltb (length path) 2 || not (front_is b'/' path)
    then false
    else if has_dot_dot path
    then false
    else leb 4 (length path) && text_eq (drop (length path - 4) path) (codes ".cgi")

-- `request_data_.find("\r\n\r\n") != npos`
unfoldable pub has_blank_line : Text → Bool
has_blank_line [] = false
has_blank_line (a ∷ []) = false
has_blank_line (a ∷ b ∷ []) = false
has_blank_line (a ∷ b ∷ c ∷ []) = false
has_blank_line (a ∷ b ∷ c ∷ d ∷ s) =
    (a == b'\r' && b == b'\n' && c == b'\r' && d == b'\n') || has_blank_line (b ∷ c ∷ d ∷ s)

-- The variables that the CGI program finds, in the order of the calls of setenv.
unfoldable pub cgi_environment : HttpRequest → Text → ℕ → Text → ℕ → List (Text × Text)
cgi_environment request server_addr server_port remote_addr remote_port =
    (codes "REQUEST_METHOD", request.method)
    ∷ (codes "REQUEST_URI", request.uri)
    ∷ (codes "QUERY_STRING", request.query)
    ∷ (codes "SERVER_PROTOCOL", request.protocol)
    ∷ (codes "HTTP_HOST", request.host)
    ∷ (codes "SERVER_ADDR", server_addr)
    ∷ (codes "SERVER_PORT", to_string server_port)
    ∷ (codes "REMOTE_ADDR", remote_addr)
    ∷ (codes "REMOTE_PORT", to_string remote_port)
    ∷ []

pub data Answer : Type 0 where
  -- Too little of the request has come.
  read_on : Answer
  -- The 403 response, and the connection is closed.
  forbidden : Answer
  -- fork, and in the child the 404 response
  not_found : Answer
  -- fork, and in the child the program, with its environment
  execute : (executable : Text) → List (Text × Text) → Answer

-- The child's choice; `executable_file` is `access(executable, X_OK) == 0`.
execute_cgi : (Text → Bool) → (HttpRequest → List (Text × Text)) → HttpRequest → Answer
unfolding is_valid_cgi_path
execute_cgi executable_file environment request =
    if not (is_valid_cgi_path request.path) || not (executable_file (b'.' ∷ request.path))
    then not_found
    else execute (b'.' ∷ request.path) (environment request)

-- The completion of a read, on the request's bytes so far and the bytes read.
unfoldable pub http_read :
    (Text → Bool) → (HttpRequest → List (Text × Text)) → Text → Text → Text × Answer
unfolding execute_cgi
http_read executable_file environment request_data bytes =
    let received = request_data ++ bytes in
    let request = parse_http_request received in
    (
      received,
      (if not (has_blank_line received)
          then read_on
          else if not (text_eq request.path (codes "/panel.cgi"))
          then forbidden
          else execute_cgi executable_file environment request),
    )
