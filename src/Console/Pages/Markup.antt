-- ===== src/Console/Pages/Markup.antt =====
-- The tags of the console page.
use network_programming.Base.{
  ℕ, zero, suc, ◌+◌, ◌*◌, true, List, [], ◌∷◌, ◌++◌, Text, codes, ◌==◌, if◌then◌else◌, ◌≡◌, refl,
  arith, all, length, to_string, to_string-digits, is_digit,
}
use network_programming.Console.Escape.Html.{html_escape-inert_line, is_inert_line}
use network_programming.Console.Escape.{html_escape}
use network_programming.Console.Query.{RemoteSessionConfig}
use network_programming.Console.Pages.{
  console_head, header_cell, header_cells, console_middle, output_cell, output_cells, console_tail,
  render_console_page,
}

abbrev pub count : ℕ → Text → ℕ
count d [] = 0
count d (c ∷ s) = (if c == d then 1 else 0) + count d s

count-append : (d : ℕ) (s t : Text) → count d (s ++ t) ≡ count d s + count d t
count-append d [] t = omega arith
count-append d (c ∷ s) t = omega (arith, count-append d s t)

abbrev tags : Text → ℕ
tags = count b'<'

tags-inert : (s : Text) → all is_inert_line s ≡ true → tags s ≡ 0
tags-inert [] h = refl
tags-inert (c ∷ s) h = ground (arith, tags-inert s)

tags-digits : (s : Text) → all is_digit s ≡ true → tags s ≡ 0
tags-digits [] h = refl
tags-digits (c ∷ s) h = ground (arith, tags-digits s)

tags-html_escape : (s : Text) → tags (html_escape s) ≡ 0
tags-html_escape s = tags-inert (html_escape s) (html_escape-inert_line s)

tags-header_cell : (session : RemoteSessionConfig) → tags (header_cell session) ≡ 2
unfolding header_cell
tags-header_cell session = omega (
  arith,
  count-append b'<' (html_escape session.host)
      (b':' ∷ (html_escape session.port ++ codes "</th>\n")),
  count-append b'<' (html_escape session.port) (codes "</th>\n"),
  tags-html_escape session.host,
  tags-html_escape session.port,
)

tags-header_cells :
    (sessions : List RemoteSessionConfig) → tags (header_cells sessions) ≡ 2 * length sessions
unfolding header_cells
tags-header_cells [] = refl
tags-header_cells (session ∷ sessions) = omega (
  arith,
  count-append b'<' (header_cell session) (header_cells sessions),
  tags-header_cell session,
  tags-header_cells sessions,
)

tags-output_cell : (i : ℕ) → tags (output_cell i) ≡ 4
unfolding output_cell
tags-output_cell i = omega (
  arith,
  count-append b'<' (to_string i) (codes "\" class=\"mb-0\"></pre></td>\n"),
  tags-digits (to_string i) (to_string-digits i),
)

tags-output_cells : (i n : ℕ) → tags (output_cells i n) ≡ 4 * n
unfolding output_cells
tags-output_cells i zero = refl
tags-output_cells i (suc n) = omega (
  arith,
  count-append b'<' (output_cell i) (output_cells (i + 1) n),
  tags-output_cell i,
  tags-output_cells (i + 1) n,
)

tags-console_head : tags console_head ≡ 16
unfolding console_head
tags-console_head = refl

tags-console_middle : tags console_middle ≡ 4
unfolding console_middle
tags-console_middle = refl

tags-console_tail : tags console_tail ≡ 5
unfolding console_tail
tags-console_tail = refl

-- Whatever the hosts, ports and files of the sessions hold, the console page has as many `<` as its
-- fixed text and six for each session: the query string adds no tag of its own.
pub render_console_page-tags :
    (sessions : List RemoteSessionConfig)
    → count b'<' (render_console_page sessions) ≡ 25 + 6 * length sessions
unfolding render_console_page
render_console_page-tags sessions =
    let cells = output_cells 0 (length sessions) in
    omega (
      arith,
      count-append b'<' console_head
          (header_cells sessions ++ (console_middle ++ (cells ++ console_tail))),
      count-append b'<' (header_cells sessions) (console_middle ++ (cells ++ console_tail)),
      count-append b'<' console_middle (cells ++ console_tail),
      count-append b'<' cells console_tail,
      tags-header_cells sessions,
      tags-output_cells 0 (length sessions),
      tags-console_head,
      tags-console_middle,
      tags-console_tail,
    )
