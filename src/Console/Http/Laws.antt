-- ===== src/Console/Http/Laws.antt =====
-- A request that a browser sends is read back.
use network_programming.Base.{
  trim_cr, ℕ, Bool, Option, none, some, text_eq, map, true, false, not, List, [], ◌∷◌, ◌++◌, Text,
  codes, ◌==◌, ◌≡◌, refl, arith, if◌then◌else◌, is_empty, cut-append, free_of, is_space, all,
  take_word, split_go, split_go-append, append_assoc, ◌∙◌, ap, all-append, sym,
}
use network_programming.Console.Url.{to_lower}
use network_programming.Console.Http.{
  with_method, with_target, with_protocol, request_of, next_word, split_target, trim_front,
  header_line, header_lines, rest_lines, parse_http_request,
}

abbrev pub is_black : ℕ → Bool
is_black c = not (is_space c)

-- A word of the request line: some bytes, and none of them white space.
abbrev pub IsWord : Text → Type 0
IsWord s = (is_empty s ≡ false) × (all is_black s ≡ true)

take_word-space :
    (s rest : Text) (d : ℕ)
    → all is_black s ≡ true
    → is_space d ≡ true
    → take_word (s ++ d ∷ rest) ≡ (s, d ∷ rest)
take_word-space [] rest d h e = ground arith
take_word-space (c ∷ s) rest d h e = ground (arith, take_word-space s rest d)

next_word-space :
    (s rest : Text) (d : ℕ)
    → IsWord s
    → is_space d ≡ true
    → (next_word (s ++ d ∷ rest) ≡ (s, d ∷ rest))
      × (next_word (32 ∷ (s ++ d ∷ rest)) ≡ (s, d ∷ rest))
unfolding next_word
next_word-space [] rest d (h, _) e = cc
next_word-space (c ∷ s) rest d (_, h) e =
    (ground (arith, take_word-space s rest d), ground (arith, take_word-space s rest d))

abbrev line_end : Text → Text
line_end rest = b'\r' ∷ b'\n' ∷ rest

-- A header by its name and what stands behind the colon.
abbrev pub Header : Type 0
Header = Text × Text

abbrev header_text : Header → Text
header_text (name, value) = name ++ b':' ∷ value

abbrev head_text : List Header → Text
head_text [] = line_end []
head_text (h ∷ hs) = header_text h ++ line_end (head_text hs)

abbrev host_header : Text → Header
host_header host = (codes "Host", 32 ∷ host)

-- A header that is not the Host header, whatever the case of its letters.
abbrev pub IsOther : Header → Type 0
IsOther (name, value) =
    (free_of b':' name ≡ true)
    × (text_eq (map to_lower name) (codes "host") ≡ false)
    × (free_of b'\n' name ≡ true)
    × (free_of b'\n' value ≡ true)

abbrev pub AreOther : List Header → Type 0
AreOther [] = Unit
AreOther (h ∷ hs) = IsOther h × AreOther hs

-- The request of a browser: its three words, a query, and the Host header between other headers.
abbrev pub browser_request : Text → Text → Text → Text → List Header → Text → List Header → Text
browser_request method path query protocol before host after =
    method
    ++ (32
        ∷ ((path ++ (b'?' ∷ query))
            ++ (32 ∷ (protocol ++ line_end (head_text (before ++ host_header host ∷ after))))))

trim_cr-concat : (s : Text) → trim_cr (s ++ b'\r' ∷ []) ≡ s
unfolding trim_cr
trim_cr-concat [] = refl
trim_cr-concat (c ∷ []) = refl
trim_cr-concat (c ∷ d ∷ s) = ap (◌∷◌ c) (trim_cr-concat (d ∷ s))

abbrev pub starts_black : Text → Bool
starts_black [] = true
starts_black (c ∷ s) = not (c == 32)

trim_front-black : (s : Text) → starts_black s ≡ true → trim_front (32 ∷ s) ≡ s
unfolding trim_front
trim_front-black [] h = refl
trim_front-black (c ∷ s) h = ground arith

header_line-host :
    (old host : Text) → starts_black host ≡ true → header_line old (codes "Host: " ++ host) ≡ host
unfolding header_line
header_line-host old host h = trim_front-black host h

abbrev raw_line : Header → Text
raw_line h = header_text h ++ b'\r' ∷ []

abbrev raw_lines : List Header → List Text
raw_lines [] = (b'\r' ∷ []) ∷ []
raw_lines (h ∷ hs) = raw_line h ∷ raw_lines hs

abbrev OneLine : List Header → Type 0
OneLine [] = Unit
OneLine (h ∷ hs) = (free_of b'\n' (raw_line h) ≡ true) × OneLine hs

split-head_text : (hs : List Header) → OneLine hs → split_go b'\n' [] (head_text hs) ≡ raw_lines hs
split-head_text [] h = refl
split-head_text (x ∷ hs) (h, more) =
    ap (split_go b'\n' []) (sym (append_assoc (header_text x) (b'\r' ∷ []) (b'\n' ∷ head_text hs)))
    ∙ split_go-append b'\n' [] (raw_line x) (head_text hs) h
    ∙ ap (◌∷◌ (raw_line x)) (split-head_text hs more)

free_of-raw_line :
    (name value : Text)
    → free_of b'\n' name ≡ true
    → free_of b'\n' value ≡ true
    → free_of b'\n' (raw_line (name, value)) ≡ true
free_of-raw_line name value h k =
    let black = λ (c : ℕ). not (c == b'\n') in
    ground (
      arith,
      all-append black (name ++ b':' ∷ value) (b'\r' ∷ []),
      all-append black name (b':' ∷ value),
    )

OneLine-others : (hs : List Header) → AreOther hs → OneLine hs
OneLine-others [] h = tt
OneLine-others ((name, value) ∷ hs) (h, more) =
    (free_of-raw_line name value h.2 h.3, OneLine-others hs more)

OneLine-append :
    (before : List Header) (host : Text) (after : List Header)
    → AreOther before
    → free_of b'\n' host ≡ true
    → AreOther after
    → OneLine (before ++ host_header host ∷ after)
OneLine-append [] host after b h a =
    (free_of-raw_line (codes "Host") (32 ∷ host) refl h, OneLine-others after a)
OneLine-append ((name, value) ∷ before) host after (b, bs) h a =
    (free_of-raw_line name value b.2 b.3, OneLine-append before host after bs h a)

header_lines-next :
    (old new : Text) (h : Header) (lines : List Text)
    → header_line old (header_text h) ≡ new
    → header_lines old (raw_line h ∷ lines) ≡ header_lines new lines
unfolding header_lines
header_lines-next old new (name, value) lines e =
    rw (trim_cr-concat (header_text (name, value)), filled name value, e) refl
  where
    filled : (name value : Text) → is_empty (header_text (name, value)) ≡ false
    filled [] value = refl
    filled (c ∷ name) value = refl

header_line-other : (old : Text) (h : Header) → IsOther h → header_line old (header_text h) ≡ old
unfolding header_line
header_line-other old (name, value) h =
    let line = ap with_cut (cut-append b':' name value h.0) in line ∙ rw (h.1) refl
  where
    with_cut : Option (Text × Text) → Text
    with_cut o = elim o [
      | none ↦ old
      | some (name, value) ↦
          if text_eq (map to_lower name) (codes "host") then trim_front value else old
    ]

header_lines-others :
    (old : Text) (hs : List Header) → AreOther hs → header_lines old (raw_lines hs) ≡ old
unfolding header_lines trim_cr
header_lines-others old [] h = refl
header_lines-others old (x ∷ hs) (h, more) =
    header_lines-next old old x (raw_lines hs) (header_line-other old x h)
    ∙ header_lines-others old hs more

header_lines-host :
    (old : Text) (before : List Header) (host : Text) (after : List Header)
    → AreOther before
    → starts_black host ≡ true
    → AreOther after
    → header_lines old (raw_lines (before ++ host_header host ∷ after)) ≡ host
header_lines-host old [] host after b s a =
    header_lines-next old host (host_header host) (raw_lines after) (header_line-host old host s)
    ∙ header_lines-others host after a
header_lines-host old (x ∷ before) host after (b, bs) s a =
    header_lines-next old old x (raw_lines (before ++ host_header host ∷ after))
      (header_line-other old x b)
    ∙ header_lines-host old before host after bs s a

split_target-append :
    (path query : Text)
    → free_of b'?' path ≡ true
    → split_target (path ++ (b'?' ∷ query)) ≡ (path, query)
unfolding split_target
split_target-append path query h = rw (cut-append b'?' path query h, split_target)

request_of_lem :
    (method path query protocol : Text) (before : List Header) (host : Text) (after : List Header)
    → free_of b'?' path ≡ true
    → AreOther before
    → free_of b'\n' host ≡ true
    → starts_black host ≡ true
    → AreOther after
    → request_of method
        (path ++ (b'?' ∷ query))
        protocol
        (line_end (head_text (before ++ host_header host ∷ after)))
      ≡ record {
        method = method;
        uri = path ++ (b'?' ∷ query);
        target = path ++ (b'?' ∷ query);
        path = path;
        query = query;
        protocol = protocol;
        host = host;
      }
unfolding request_of rest_lines
request_of_lem method path query protocol before host after hq hb hl hs ha =
    let target = split_target-append path query hq in
    let headers =
      ap (header_lines []) (
        split-head_text (before ++ host_header host ∷ after)
          (OneLine-append before host after hb hl ha))
      ∙ header_lines-host [] before host after hb hs ha in
    λ i. record {
      method = method;
      uri = path ++ (b'?' ∷ query);
      target = path ++ (b'?' ∷ query);
      path = (target i).0;
      query = (target i).1;
      protocol = protocol;
      host = headers i;
    }

-- The method, the target with its path and query, the protocol and the Host header of a browser's
-- request are read back, whatever other headers stand before and behind it: for words as method, path
-- with query, and protocol, a path with no `?`, a host with no line break that does not begin with a
-- space, and other headers with no line break whose names have no colon and are not `host` in any
-- case of letters.
pub parse-browser_request :
    (method path query protocol : Text) (before : List Header) (host : Text) (after : List Header)
    → IsWord method
    → IsWord (path ++ (b'?' ∷ query))
    → IsWord protocol
    → free_of b'?' path ≡ true
    → AreOther before
    → free_of b'\n' host ≡ true
    → starts_black host ≡ true
    → AreOther after
    → parse_http_request (browser_request method path query protocol before host after) ≡ record {
      method = method;
      uri = path ++ (b'?' ∷ query);
      target = path ++ (b'?' ∷ query);
      path = path;
      query = query;
      protocol = protocol;
      host = host;
    }
unfolding parse_http_request request_of
parse-browser_request method path query protocol before host after hm ht hp hq hb hl hs ha =
    let target = path ++ (b'?' ∷ query) in
    let headers = head_text (before ++ host_header host ∷ after) in
    let behind_protocol = line_end headers in
    let behind_target = 32 ∷ (protocol ++ behind_protocol) in
    ap with_method (next_word-space method (target ++ behind_target) 32 hm refl).0
    ∙ ap (with_target method) (next_word-space target (protocol ++ behind_protocol) 32 ht refl).1
    ∙ ap (with_protocol method target) (next_word-space protocol (b'\n' ∷ headers) b'\r' hp refl).1
    ∙ request_of_lem method path query protocol before host after hq hb hl hs ha
