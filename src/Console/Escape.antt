-- ===== src/Console/Escape.antt =====
-- Remote output on its way into the browser: `html_escape`, `js_string_escape` and
-- `make_console_script` of console_components.cpp (project 3), and `html_escape`, `js_escape` and
-- `output_text` of console_components.hpp (project 4). Bytes are numbers below 256.
pub mod Html
pub mod Js
pub mod Script
use network_programming.Base.{
  ℕ, ◌+◌, ◌-◌, ◌/◌, ◌%◌, Bool, true, false, ◌&&◌, [], ◌∷◌, ◌++◌, Text, codes, leb, ltb, ◌==◌,
  to_string, if◌then◌else◌,
}

-- Project 3: the entity for one byte.
abbrev pub html_escape_byte : ℕ → Text
html_escape_byte ch =
    if ch == b'&'
    then codes "&amp;"
    else if ch == b'<'
    then codes "&lt;"
    else if ch == b'>'
    then codes "&gt;"
    else if ch == b'"'
    then codes "&quot;"
    else if ch == b'\''
    then codes "&#39;"
    else if ch == b'\n'
    then codes "&NewLine;"
    else if ch == b'\r'
    then []
    else ch ∷ []

unfoldable pub html_escape : Text → Text
html_escape [] = []
html_escape (ch ∷ content) = html_escape_byte ch ++ html_escape content

abbrev pub js_escape_byte : ℕ → Text
js_escape_byte ch =
    if ch == b'\\'
    then b'\\' ∷ b'\\' ∷ []
    else if ch == b'\''
    then b'\\' ∷ b'\'' ∷ []
    else if ch == b'\n'
    then b'\\' ∷ b'n' ∷ []
    else if ch == b'\r'
    then []
    else ch ∷ []

unfoldable pub js_string_escape : Text → Text
js_string_escape [] = []
js_string_escape (ch ∷ content) = js_escape_byte ch ++ js_string_escape content

abbrev script_open : ℕ → Text
script_open session_id =
    codes "<script>document.getElementById('s"
    ++ (to_string session_id ++ codes "').innerHTML += '")

-- Project 3. The session ids that the program passes are not negative.
unfoldable pub make_console_script : ℕ → Text → Bool → Text
make_console_script session_id content command =
    let escaped = js_string_escape (html_escape content) in
    script_open session_id
    ++ ((if command then codes "<b>" else [])
        ++ (escaped ++ ((if command then codes "</b>" else []) ++ codes "';</script>\n")))

-- Project 4.
abbrev pub html_escape_inline_byte : ℕ → Text
html_escape_inline_byte ch =
    if ch == b'&'
    then codes "&amp;"
    else if ch == b'<'
    then codes "&lt;"
    else if ch == b'>'
    then codes "&gt;"
    else if ch == b'"'
    then codes "&quot;"
    else if ch == b'\''
    then codes "&#39;"
    else ch ∷ []

unfoldable pub html_escape_inline : Text → Text
html_escape_inline [] = []
html_escape_inline (ch ∷ value) = html_escape_inline_byte ch ++ html_escape_inline value

-- std::isprint in the "C" locale
abbrev pub is_print : ℕ → Bool
is_print c = leb 32 c && leb c 126

-- A digit of std::hex output.
abbrev pub low_hex_digit : ℕ → ℕ
low_hex_digit n = if ltb n 10 then b'0' + n else b'a' + (n - 10)

abbrev pub js_hex_byte : ℕ → Text
js_hex_byte ch = b'\\' ∷ b'x' ∷ low_hex_digit (ch / 16) ∷ low_hex_digit (ch % 16) ∷ []

abbrev pub js_escape_inline_byte : ℕ → Text
js_escape_inline_byte ch =
    if ch == b'\\'
    then b'\\' ∷ b'\\' ∷ []
    else if ch == b'\''
    then b'\\' ∷ b'\'' ∷ []
    else if ch == b'\n'
    then b'\\' ∷ b'n' ∷ []
    else if ch == b'\r'
    then []
    else if ch == b'<'
    then codes "\\x3C"
    else if ch == b'>'
    then codes "\\x3E"
    else if ch == b'&'
    then codes "\\x26"
    else if is_print ch
    then ch ∷ []
    else js_hex_byte ch

unfoldable pub js_escape_inline : Text → Text
js_escape_inline [] = []
js_escape_inline (ch ∷ value) = js_escape_inline_byte ch ++ js_escape_inline value

unfoldable pub output_text : ℕ → Text → Bool → Text
output_text session_id text escape_html =
    let html = if escape_html then html_escape_inline text else text in
    script_open session_id ++ (js_escape_inline html ++ codes "';</script>")
