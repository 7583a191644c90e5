-- ===== src/Console/Panel.antt =====
-- The panel of console_components.cpp (project 3): `render_panel_page`.
use network_programming.Base.{ℕ, zero, suc, ◌+◌, List, [], ◌∷◌, ◌++◌, Text, codes, to_string}
use network_programming.Console.Pages.{text_lines}

-- The panel down to the first session.
panel_head : Text
panel_head = text_lines (
    "<!DOCTYPE html>" ∷ "<html lang=\"en\">" ∷ "  <head>" ∷ "    <title>NP Project 3 Panel</title>"
    ∷ "    <link" ∷ "      rel=\"stylesheet\""
    ∷ "      href=\"https://cdn.jsdelivr.net/npm/bootstrap@4.5.3/dist/css/bootstrap.min.css\""
    ∷ "      crossorigin=\"anonymous\"" ∷ "    />" ∷ "    <link"
    ∷ "      href=\"https://fonts.googleapis.com/css?family=Source+Code+Pro\""
    ∷ "      rel=\"stylesheet\"" ∷ "    />" ∷ "    <link" ∷ "      rel=\"icon\""
    ∷ "      type=\"image/png\""
    ∷ "      href=\"https://cdn4.iconfinder.com/data/icons/iconsimple-setting-time/512/dashboard-512.png\""
    ∷ "    />" ∷ "    <style>" ∷ "      * {" ∷ "        font-family: 'Source Code Pro', monospace;"
    ∷ "      }" ∷ "    </style>" ∷ "  </head>" ∷ "  <body class=\"bg-secondary pt-5\">"
    ∷ "    <form action=\"console.cgi\" method=\"GET\">"
    ∷ "      <table class=\"table mx-auto bg-light\" style=\"width: inherit\">"
    ∷ "        <thead class=\"thead-dark\">" ∷ "          <tr>"
    ∷ "            <th scope=\"col\">#</th>" ∷ "            <th scope=\"col\">Host</th>"
    ∷ "            <th scope=\"col\">Port</th>" ∷ "            <th scope=\"col\">Input File</th>"
    ∷ "          </tr>" ∷ "        </thead>" ∷ "        <tbody>" ∷ [])

host_option : ℕ → Text
host_option host =
    codes "                  <option value=\"nplinux"
    ++ (to_string host
        ++ (codes ".cs.nycu.edu.tw\">nplinux" ++ (to_string host ++ codes "</option>\n")))

file_option : ℕ → Text
file_option file =
    codes "                <option value=\"t"
    ++ (to_string file ++ (codes ".txt\">t" ++ (to_string file ++ codes ".txt</option>\n")))

-- for (i = first; …; ++i) html << part(i), for `n` rounds
repeat_from : (ℕ → Text) → ℕ → ℕ → Text
repeat_from part first zero = []
repeat_from part first (suc n) = part first ++ repeat_from part (first + 1) n

abbrev join : List Text → Text
join [] = []
join (part ∷ parts) = part ++ join parts

panel_row : ℕ → Text
unfolding host_option file_option repeat_from
panel_row i = join (
    codes "          <tr>\n            <th scope=\"row\" class=\"align-middle\">Session "
    ∷ to_string (i + 1)
    ∷ codes "</th>\n            <td>\n              <div class=\"input-group\">\n"
    ∷ codes "                <select name=\"h"
    ∷ to_string i
    ∷ codes "\" class=\"custom-select\">\n                  <option></option>\n"
    ∷ repeat_from host_option 1 12
    ∷ text_lines (
        "                </select>" ∷ "                <div class=\"input-group-append\">"
        ∷ "                  <span class=\"input-group-text\">.cs.nycu.edu.tw</span>"
        ∷ "                </div>" ∷ "              </div>" ∷ "            </td>"
        ∷ "            <td>" ∷ [])
    ∷ codes "              <input name=\"p"
    ∷ to_string i
    ∷ codes "\" type=\"text\" class=\"form-control\" size=\"5\" />\n"
    ∷ codes "            </td>\n            <td>\n              <select name=\"f"
    ∷ to_string i
    ∷ codes "\" class=\"custom-select\">\n                <option></option>\n"
    ∷ repeat_from file_option 1 5
    ∷ codes "              </select>\n            </td>\n          </tr>\n"
    ∷ [])

-- The panel behind the sessions.
panel_tail : Text
panel_tail = text_lines (
    "          <tr>" ∷ "            <td colspan=\"3\"></td>" ∷ "            <td>"
    ∷ "              <button type=\"submit\" class=\"btn btn-info btn-block\">Run</button>"
    ∷ "            </td>" ∷ "          </tr>" ∷ "        </tbody>" ∷ "      </table>"
    ∷ "    </form>" ∷ "  </body>" ∷ "</html>" ∷ [])

pub render_panel_page : Text
unfolding panel_head panel_row panel_tail
render_panel_page = panel_head ++ (repeat_from panel_row 0 5 ++ panel_tail)
