-- ===== src/Examples/Texts.antt =====
-- Command lines, markup, names and the review queue, and what the theorems say of them.
use termcp.Base.{
  true, false, none, List, [], ◌∷◌, ◌++◌, map, Text, All, ◌≡◌, refl, inl, inr, arith, codes,
}
use termcp.Util.CommandLine.{split_command_line}
use termcp.Util.CommandLine.RoundTrip.{
  Item, bare, quoted, render, item_meaning, IsLine, split_command_line-render,
}
use termcp.Util.Html.{escape_html, decode, decode-escape_html}
use termcp.Approval.{Request, Surfaces, Badge, keep_approval_counts}
use termcp.Approval.Counts.{IsExact, keep_approval_counts-IsExact}

-- `ls "a b"`, with two blanks in front.
abbrev items : List Item
items =
    record { first = bare b'l'; rest = bare b's' ∷ []; gap = codes " " }
    ∷ record { first = quoted b'"' (codes "a b"); rest = []; gap = [] }
    ∷ []

items-IsLine : IsLine items
items-IsLine = (
  ((refl, refl), ((refl, refl), tt)),
  (refl, tt),
  inl (λ e. cc),
  (((refl, (omega arith, (omega arith, (omega arith, tt)))), tt), tt, inr refl, tt),
)

split_command_line-render_example :
    split_command_line (codes "  " ++ render items) ≡ map item_meaning items
split_command_line-render_example =
    split_command_line-render (codes "  ") items (refl, (refl, tt)) items-IsLine

abbrev tagged : Text
tagged = codes "<b>&\"x\"</b>"

decode-escape_html_example : decode (escape_html tagged) none ≡ tagged
decode-escape_html_example = decode-escape_html tagged

abbrev pub asked : Request
asked = record {
  id = codes "1";
  session_id = codes "s";
  shell_id = codes "sh";
  state = codes "pending";
  kind = [];
  text = codes "rm <x>";
  summary = [];
  source = codes "agent";
  keys = codes "tab" ∷ codes "enter" ∷ [];
}

abbrev badge : Text → Badge
badge sid = record { sid = sid; hidden = true; number = 0; has_review = false }

abbrev pub page : Surfaces
page = record {
  counts = (codes "s", 2) ∷ [];
  locks = badge (codes "s") ∷ badge [] ∷ [];
  tabs = badge (codes "t") ∷ [];
  tiles = [];
}

keep_approval_counts-IsExact_example :
    let q = keep_approval_counts (asked ∷ []) page in
    All (IsExact (asked ∷ [])) q.locks
    × All (IsExact (asked ∷ [])) q.tabs
    × All (IsExact (asked ∷ [])) q.tiles
keep_approval_counts-IsExact_example = keep_approval_counts-IsExact (asked ∷ []) page

abbrev shout : Text → Text
shout t = t ++ codes "!"
