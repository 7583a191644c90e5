-- ===== src/Console/Query/Laws.antt =====
-- A query string that a form writes is read back.
use network_programming.Base.{
  ℕ, zero, suc, ◌+◌, ◌≤◌, Bool, true, false, not, ◌&&◌, List, [], ◌∷◌, ◌++◌, Text, text_eq,
  cut-append, free_of, ◌==◌, is_empty, if◌then◌else◌, ◌≡◌, refl, arith, all, all-append, length,
  append-nil, append_assoc, ap, ◌∙◌, fun_ext,
}
use network_programming.Console.Url.Laws.{
  url_encode, encode_byte, is_byte, url_decode-url_encode, url_decode_inline-eq,
}
use network_programming.Console.Url.{url_decode}
use network_programming.Console.Query.{
  Params, param, items_go, key_value, add_item, add_items, query_map, parse_query_map,
  parse_query_params, RemoteSessionConfig, is_complete, sessions_from, sessions_of,
  parse_remote_sessions, parse_remote_sessions_inline,
}

abbrev pub IsBytes : Text → Type 0
IsBytes s = all is_byte s ≡ true

-- A form's fields in order.
abbrev pub Fields : Type 0
Fields = List (Text × Text)

abbrev pub AreBytes : Fields → Type 0
AreBytes [] = Unit {0}
AreBytes ((k, v) ∷ fs) = IsBytes k × IsBytes v × AreBytes fs

abbrev pub item_of : Text → Text → Text
item_of k v = url_encode k ++ (b'=' ∷ url_encode v)

abbrev pub render_query : Fields → Text
render_query [] = []
render_query ((k, v) ∷ []) = item_of k v
render_query ((k, v) ∷ f ∷ fs) = item_of k v ++ (b'&' ∷ render_query (f ∷ fs))

-- The value of the last field with the name, or `d`.
abbrev pub last_value : Text → Text → Fields → Text
last_value d key [] = d
last_value d key ((k, v) ∷ fs) = last_value (if text_eq k key then v else d) key fs

abbrev is_item_byte : ℕ → Bool
is_item_byte c = not (c == b'&') && not (c == b'=')

encode_byte-item : (c : ℕ) → is_byte c ≡ true → all is_item_byte (encode_byte c) ≡ true
encode_byte-item c h = ground arith

encode-item : (s : Text) → IsBytes s → all is_item_byte (url_encode s) ≡ true
encode-item [] h = refl
encode-item (c ∷ s) h = ground (
  arith,
  encode_byte-item c,
  encode-item s,
  all-append is_item_byte (encode_byte c) (url_encode s),
)

item_bytes-eq :
    (s : Text) → all is_item_byte s ≡ true → (free_of b'=' s ≡ true) × (free_of b'&' s ≡ true)
item_bytes-eq [] h = (refl, refl)
item_bytes-eq (c ∷ s) h = let r = item_bytes-eq s (ground arith) in (ground arith, ground arith)

item_of-free_of : (k v : Text) → IsBytes k → IsBytes v → free_of b'&' (item_of k v) ≡ true
item_of-free_of k v hk hv = ground (
  arith,
  (item_bytes-eq (url_encode k) (encode-item k hk)).1,
  (item_bytes-eq (url_encode v) (encode-item v hv)).1,
  all-append (λ (c : ℕ). not (c == b'&')) (url_encode k) (b'=' ∷ url_encode v),
)

items_go-append :
    (item s rest : Text)
    → free_of b'&' s ≡ true
    → items_go item (s ++ b'&' ∷ rest) ≡ (item ++ s) ∷ items_go [] rest
unfolding items_go
items_go-append item [] rest h = ground (arith, append-nil item)
items_go-append item (c ∷ s) rest h =
    ground (arith, items_go-append (item ++ c ∷ []) s rest, append_assoc item (c ∷ []) s)

items_go-last : (item s : Text) → free_of b'&' s ≡ true → items_go item s ≡ (item ++ s) ∷ []
unfolding items_go
items_go-last item [] h = ground (arith, append-nil item)
items_go-last item (c ∷ s) h =
    ground (arith, items_go-last (item ++ c ∷ []) s, append_assoc item (c ∷ []) s)

item_of-ne_nil : (s t : Text) → is_empty (s ++ b'=' ∷ t) ≡ false
item_of-ne_nil [] t = refl
item_of-ne_nil (c ∷ s) t = refl

add_item-item_of :
    (m : Params) (k v : Text)
    → IsBytes k
    → IsBytes v
    → add_item url_decode m (item_of k v) ≡ (k, v) ∷ m
unfolding add_item
add_item-item_of m k v hk hv =
    rw
      (
        item_of-ne_nil (url_encode k) (url_encode v),
        cut-append b'=' (url_encode k) (url_encode v)
            (item_bytes-eq (url_encode k) (encode-item k hk)).0,
        key_value,
        url_decode-url_encode k hk,
        url_decode-url_encode v hv,
      )
      refl

abbrev puts : Params → Fields → Params
puts m [] = m
puts m ((k, v) ∷ fs) = puts ((k, v) ∷ m) fs

add_items-render :
    (m : Params) (k v : Text) (fs : Fields)
    → AreBytes ((k, v) ∷ fs)
    → add_items url_decode m (items_go [] (render_query ((k, v) ∷ fs))) ≡ puts m ((k, v) ∷ fs)
unfolding add_items
add_items-render m k v [] h =
    rw (items_go-last [] (item_of k v) (item_of-free_of k v h.0 h.1))
      (add_item-item_of m k v h.0 h.1)
add_items-render m k v ((k', v') ∷ fs) h =
    ap (add_items url_decode m) (
      items_go-append [] (item_of k v) (render_query ((k', v') ∷ fs)) (item_of-free_of k v h.0 h.1))
    ∙ ap (λ n. add_items url_decode n (items_go [] (render_query ((k', v') ∷ fs))))
        (add_item-item_of m k v h.0 h.1)
    ∙ add_items-render ((k, v) ∷ m) k' v' fs h.2

parse-render : (fs : Fields) → AreBytes fs → parse_query_map (render_query fs) ≡ puts [] fs
unfolding parse_query_map
parse-render [] h = refl
parse-render ((k, v) ∷ fs) h = add_items-render [] k v fs h

param-puts :
    (m : Params) (key : Text) (fs : Fields)
    → param (puts m fs) key ≡ last_value (param m key) key fs
unfolding param
param-puts m key [] = refl
param-puts m key ((k, v) ∷ fs) = param-puts ((k, v) ∷ m) key fs

-- For every list of form fields over bytes, written with their names and values encoded, with `=`
-- between and `&` among them, looking up a name in the parsed query gives the value of the last
-- field of that name, and the empty text if there is none.
pub param-parse_query_map :
    (fs : Fields) (key : Text)
    → AreBytes fs
    → param (parse_query_map (render_query fs)) key ≡ last_value [] key fs
param-parse_query_map fs key h = rw (parse-render fs h) (unfold param in param-puts [] key fs)

-- The two projects read the same sessions from every query string.
pub parse_remote_sessions_inline-eq :
    (query : Text) → parse_remote_sessions_inline query ≡ parse_remote_sessions query
unfolding parse_remote_sessions_inline parse_remote_sessions parse_query_params parse_query_map
parse_remote_sessions_inline-eq query =
    ap (λ d. sessions_of (query_map d query)) (fun_ext url_decode_inline-eq)

abbrev pub AllComplete : List RemoteSessionConfig → Type 0
AllComplete [] = Unit {0}
AllComplete (c ∷ cs) = (is_complete c ≡ true) × AllComplete cs

sessions_from-bounds :
    (m : Params) (i n : ℕ) → (length (sessions_from m i n) ≤ n) × AllComplete (sessions_from m i n)
unfolding sessions_from
sessions_from-bounds m i zero = (omega arith, tt)
sessions_from-bounds m i (suc n) = ground (arith, sessions_from-bounds m (i + 1) n)

-- Every query string gives at most five sessions, and each of them has a host, a port and a file.
pub parse_remote_sessions_bounds :
    (query : Text)
    → (length (parse_remote_sessions query) ≤ 5) × AllComplete (parse_remote_sessions query)
unfolding parse_remote_sessions
parse_remote_sessions_bounds query = sessions_from-bounds (parse_query_map query) 0 5
