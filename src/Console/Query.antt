-- ===== src/Console/Query.antt =====
-- The query string of console.cgi: `parse_query_map` and `parse_remote_sessions` of
-- console_components.cpp (project 3), `parse_query_params`, `parse_remote_sessions` and
-- `parse_socks_config` of console_components.hpp (project 4). The projects differ in the decoder.
pub mod Laws
use network_programming.Base.{
  ℕ, zero, suc, ◌+◌, Bool, not, ◌&&◌, List, [], ◌∷◌, ◌++◌, Option, none, some, Text, codes, text_eq,
  cut, ◌==◌, to_string, is_empty, if◌then◌else◌,
}
use network_programming.Console.Url.{url_decode, url_decode_inline}

-- std::map<std::string, std::string>, the newest binding of a key first.
abbrev pub Params : Type 0
Params = List (Text × Text)

-- params[key], which is empty where the key is absent
unfoldable pub param : Params → Text → Text
param [] key = []
param ((k, v) ∷ m) key = if text_eq k key then v else param m key

-- The items between the `&` signs, the last one included.
items_go : Text → Text → List Text
items_go item [] = item ∷ []
items_go item (c ∷ s) =
    let closed = item ∷ items_go [] s in
    let longer = items_go (item ++ c ∷ []) s in if c == b'&' then closed else longer

module _ (decode : Text → Text) where
  key_value : Text → Option (Text × Text) → Text × Text
  key_value item none = (decode item, [])
  key_value item (some (key, value)) = (decode key, decode value)

  -- params[key] = value for one item; an empty item is passed over.
  add_item : Params → Text → Params
  unfolding key_value
  add_item m item = if is_empty item then m else key_value item (cut b'=' item) ∷ m

  add_items : Params → List Text → Params
  add_items m [] = m
  add_items m (item ∷ items) = add_items (add_item m item) items

  query_map : Text → Params
  unfolding add_item add_items items_go
  query_map query = add_items [] (items_go [] query)

unfoldable pub parse_query_map : Text → Params
unfolding query_map
parse_query_map = query_map url_decode

unfoldable pub parse_query_params : Text → Params
unfolding query_map
parse_query_params = query_map url_decode_inline

pub record RemoteSessionConfig : Type 0 where
  pub host : Text
  pub port : Text
  pub file : Text

config_at : Params → ℕ → RemoteSessionConfig
unfolding param
config_at m i = record {
  host = param m (b'h' ∷ to_string i);
  port = param m (b'p' ∷ to_string i);
  file = param m (b'f' ∷ to_string i);
}

abbrev pub is_complete : RemoteSessionConfig → Bool
is_complete c = not (is_empty c.host) && not (is_empty c.port) && not (is_empty c.file)

-- The loop from index `i` on, with `n` rounds left.
sessions_from : Params → ℕ → ℕ → List RemoteSessionConfig
unfolding config_at
sessions_from m i zero = []
sessions_from m i (suc n) =
    let rest = sessions_from m (i + 1) n in
    if is_complete (config_at m i) then config_at m i ∷ rest else rest

unfoldable pub sessions_of : Params → List RemoteSessionConfig
unfolding sessions_from
sessions_of m = sessions_from m 0 5

-- Project 3.
unfoldable pub parse_remote_sessions : Text → List RemoteSessionConfig
unfolding sessions_of
parse_remote_sessions query = sessions_of (parse_query_map query)

-- Project 4.
unfoldable pub parse_remote_sessions_inline : Text → List RemoteSessionConfig
unfolding sessions_of
parse_remote_sessions_inline query = sessions_of (parse_query_params query)

pub record SocksConfig : Type 0 where
  pub host : Text
  pub port : Text

unfoldable pub parse_socks_config : Text → SocksConfig
parse_socks_config query =
    let params = parse_query_params query in
    record { host = param params (codes "sh"); port = param params (codes "sp") }
