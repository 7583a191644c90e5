-- ===== src/Console/Pages.antt =====
-- The console page of console_components.cpp (project 3): `render_console_page`.
pub mod Markup
use Prim.Native.String.{String}
use network_programming.Base.{
  ℕ, zero, suc, ◌+◌, Bool, List, [], ◌∷◌, ◌++◌, Text, codes, to_string, length,
}
use network_programming.Console.Escape.{html_escape}
use network_programming.Console.Query.{RemoteSessionConfig}

-- The lines, each with its line break.
abbrev pub text_lines : List String → Text
text_lines [] = []
text_lines (line ∷ lines) = codes line ++ (b'\n' ∷ text_lines lines)

-- The page down to the first row of the table.
console_head : Text
console_head = text_lines (
    "<!DOCTYPE html>" ∷ "<html lang=\"en\">" ∷ "  <head>" ∷ "    <meta charset=\"UTF-8\" />"
    ∷ "    <title>NP Project 3 Console</title>" ∷ "    <link" ∷ "      rel=\"stylesheet\""
    ∷ "      href=\"https://cdn.jsdelivr.net/npm/bootstrap@4.5.3/dist/css/bootstrap.min.css\""
    ∷ "      crossorigin=\"anonymous\"" ∷ "    />" ∷ "    <link"
    ∷ "      href=\"https://fonts.googleapis.com/css?family=Source+Code+Pro\""
    ∷ "      rel=\"stylesheet\"" ∷ "    />" ∷ "    <link" ∷ "      rel=\"icon\""
    ∷ "      type=\"image/png\""
    ∷ "      href=\"https://cdn0.iconfinder.com/data/icons/small-n-flat/24/678068-terminal-512.png\""
    ∷ "    />" ∷ "    <style>" ∷ "      * {" ∷ "        font-family: 'Source Code Pro', monospace;"
    ∷ "        font-size: 1rem !important;" ∷ "      }" ∷ "      body {"
    ∷ "        background-color: #212529;" ∷ "      }" ∷ "      pre {" ∷ "        color: #cccccc;"
    ∷ "      }" ∷ "      b {" ∷ "        color: #01b468;" ∷ "      }" ∷ "    </style>" ∷ "  </head>"
    ∷ "  <body>" ∷ "    <table class=\"table table-dark table-bordered\">" ∷ "      <thead>"
    ∷ "        <tr>" ∷ [])

header_cell : RemoteSessionConfig → Text
header_cell session =
    codes "          <th scope=\"col\">"
    ++ (html_escape session.host ++ (b':' ∷ (html_escape session.port ++ codes "</th>\n")))

header_cells : List RemoteSessionConfig → Text
header_cells [] = []
header_cells (session ∷ sessions) = header_cell session ++ header_cells sessions

-- Between the two rows.
console_middle : Text
console_middle =
    text_lines ("        </tr>" ∷ "      </thead>" ∷ "      <tbody>" ∷ "        <tr>" ∷ [])

output_cell : ℕ → Text
output_cell i =
    codes "          <td><pre id=\"s" ++ (to_string i ++ codes "\" class=\"mb-0\"></pre></td>\n")

-- The cells from number `i` on.
output_cells : ℕ → ℕ → Text
output_cells i zero = []
output_cells i (suc n) = output_cell i ++ output_cells (i + 1) n

-- The page behind the table rows.
console_tail : Text
console_tail =
    text_lines ("        </tr>" ∷ "      </tbody>" ∷ "    </table>" ∷ "  </body>" ∷ "</html>" ∷ [])

pub render_console_page : List RemoteSessionConfig → Text
unfolding console_head header_cells console_middle output_cells console_tail
render_console_page sessions =
    console_head
    ++ (header_cells sessions
        ++ (console_middle ++ (output_cells 0 (length sessions) ++ console_tail)))
