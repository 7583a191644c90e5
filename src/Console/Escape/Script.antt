-- ===== src/Console/Escape/Script.antt =====
-- The whole path of remote output: the script that the program writes, the string that the
-- JavaScript engine reads from it, and the text that the browser then shows.
use network_programming.Base.{
  ℕ, suc, Bool, true, false, not, ◌&&◌, [], ◌∷◌, ◌++◌, some, Text, codes, ◌==◌, to_string,
  if◌then◌else◌, ◌≡◌, refl, arith, all, all-append, length, append_assoc, ap, ◌∙◌, sym,
}
use network_programming.Console.Escape.Html.{
  without_cr, html_escape-inert_line, html_read, html_read-html_escape,
  html_read-html_escape_inline, is_inert_line,
}
use network_programming.Console.Escape.Js.{
  js_read, js_read-js_string_escape, js_read-js_escape_inline, is_byte,
}
use network_programming.Console.Escape.{
  html_escape, html_escape_inline, html_escape_inline_byte, js_string_escape, js_escape_byte,
  js_escape_inline, js_escape_inline_byte, make_console_script, output_text,
}

-- What stands in front of the string literal.
abbrev pub opening : ℕ → Text
opening session_id =
    codes "<script>document.getElementById('s"
    ++ (to_string session_id ++ codes "').innerHTML += '")

without_cr-append : (s t : Text) → without_cr (s ++ t) ≡ without_cr s ++ without_cr t
without_cr-append [] t = refl
without_cr-append (c ∷ s) t = ground (arith, without_cr-append s t)

without_cr-inert : (s : Text) → all is_inert_line s ≡ true → without_cr s ≡ s
without_cr-inert [] h = refl
without_cr-inert (c ∷ s) h = ground (arith, without_cr-inert s)

js_string_escape-append :
    (s t : Text) → js_string_escape (s ++ t) ≡ js_string_escape s ++ js_string_escape t
unfolding js_string_escape
js_string_escape-append [] t = refl
js_string_escape-append (c ∷ s) t =
    rw (js_string_escape-append s t)
      (sym (append_assoc (js_escape_byte c) (js_string_escape s) (js_string_escape t)))

abbrev pub is_tag_free : ℕ → Bool
is_tag_free c = not (c == b'<') && not (c == b'>')

js_string_escape-tag_free :
    (s : Text) → all is_inert_line s ≡ true → all is_tag_free (js_string_escape s) ≡ true
unfolding js_string_escape
js_string_escape-tag_free [] h = refl
js_string_escape-tag_free (c ∷ s) h = ground (
  arith,
  all-append is_tag_free (js_escape_byte c) (js_string_escape s),
  js_string_escape-tag_free s,
)

-- The markup that the engine is to append.
abbrev pub markup : Text → Bool → Text
markup content command =
    if command then codes "<b>" ++ (html_escape content ++ codes "</b>") else html_escape content

without_cr-markup :
    (content : Text) (command : Bool) → without_cr (markup content command) ≡ markup content command
without_cr-markup content false =
    without_cr-inert (html_escape content) (html_escape-inert_line content)
without_cr-markup content true =
    let plain = without_cr-inert (html_escape content) (html_escape-inert_line content) in
    ap (λ (s : Text). codes "<b>" ++ s)
      (without_cr-append (html_escape content) (codes "</b>")
        ∙ ap (λ (s : Text). s ++ codes "</b>") plain)

script-markup :
    (session_id : ℕ) (content : Text) (command : Bool)
    → make_console_script session_id content command
      ≡ opening session_id ++ (js_string_escape (markup content command) ++ codes "';</script>\n")
unfolding make_console_script js_string_escape
script-markup session_id content false = refl
script-markup session_id content true =
    ap (λ (s : Text). opening session_id ++ (codes "<b>" ++ s))
      (sym (
          append_assoc (js_string_escape (html_escape content)) (codes "</b>")
            (codes "';</script>\n"))
        ∙ ap (λ (s : Text). s ++ codes "';</script>\n")
            (sym (js_string_escape-append (html_escape content) (codes "</b>"))))

-- Project 3, for every session, content and kind of output. Behind its fixed opening the script goes
-- on with a string literal that a JavaScript engine reads, up to the program's own closing quote, as
-- the escaped content, in bold exactly for a command; the encoded content has no `<` or `>`; and a
-- browser reads the escaped content as the original one less its carriage returns.
pub make_console_script-shows :
    (session_id : ℕ) (content : Text) (command : Bool)
    → (literal : Text) × (make_console_script session_id content command
        ≡ opening session_id ++ literal)
      × (js_read literal ≡ some (markup content command, codes ";</script>\n"))
      × (all is_tag_free (js_string_escape (html_escape content)) ≡ true)
      × (html_read (suc (length content)) (html_escape content) ≡ some (without_cr content))
make_console_script-shows session_id content command = (
  js_string_escape (markup content command) ++ codes "';</script>\n",
  script-markup session_id content command,
  js_read-js_string_escape (markup content command) (codes ";</script>\n")
      ∙ ap (λ (s : Text). some (s, codes ";</script>\n")) (without_cr-markup content command),
  js_string_escape-tag_free (html_escape content) (html_escape-inert_line content),
  html_read-html_escape (suc (length content)) content (omega arith),
)

html_escape_inline-bytes :
    (s : Text) → all is_byte s ≡ true → all is_byte (html_escape_inline s) ≡ true
unfolding html_escape_inline
html_escape_inline-bytes [] h = refl
html_escape_inline-bytes (c ∷ s) h = ground (
  arith,
  all-append is_byte (html_escape_inline_byte c) (html_escape_inline s),
  html_escape_inline-bytes s,
)

abbrev pub is_script_safe : ℕ → Bool
is_script_safe c = is_tag_free c && not (c == b'&')

js_escape_inline-safe :
    (s : Text) → all is_byte s ≡ true → all is_script_safe (js_escape_inline s) ≡ true
unfolding js_escape_inline
js_escape_inline-safe [] h = refl
js_escape_inline-safe (c ∷ s) h = ground (
  arith,
  all-append is_script_safe (js_escape_inline_byte c) (js_escape_inline s),
  js_escape_inline-safe s,
)

-- Project 4, for every session and every content of bytes that is to be escaped. The literal reads as
-- the escaped content less its carriage returns, its source has no `<`, `>` or `&`, and a browser
-- reads the escaped content as the original one.
pub output_text-shows :
    (session_id : ℕ) (text : Text)
    → all is_byte text ≡ true
    → (literal : Text) × (output_text session_id text true ≡ opening session_id ++ literal)
      × (js_read literal ≡ some (without_cr (html_escape_inline text), codes ";</script>"))
      × (all is_script_safe (js_escape_inline (html_escape_inline text)) ≡ true)
      × (html_read (suc (length text)) (html_escape_inline text) ≡ some text)
unfolding output_text
output_text-shows session_id text h =
    let bytes = html_escape_inline-bytes text h in
    (
      js_escape_inline (html_escape_inline text) ++ codes "';</script>",
      refl,
      js_read-js_escape_inline (html_escape_inline text) (codes ";</script>") bytes,
      js_escape_inline-safe (html_escape_inline text) bytes,
      html_read-html_escape_inline (suc (length text)) text (omega arith),
    )
