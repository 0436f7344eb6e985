-- ===== src/Approval/Row/Markup.antt =====
-- The markup of a row of the review panel: `renderApprovalItem` of
-- internal/webui/assets/static/js/approval.js.
use termcp.Base.{
  ℕ, keep_if, Bool, not, List, [], ◌∷◌, ◌++◌, append-nil, append_assoc, Text, codes, ◌≡◌, refl, ap,
  ◌∙◌, ◌||◌, false, arith, All, ◌==◌, is_empty, joined, if◌then◌else◌, Bool-cases, inl, inr,
  text_eq,
}
use termcp.Util.Html.{escape_html, escape_html-IsInert, IsInert}

-- What a parser of markup goes by: the brackets of tags and the quotes of attribute values.
abbrev is_markup : ℕ → Bool
is_markup c = c == b'<' || (c == b'>' || c == b'"')

pub markup : Text → Text
markup = keep_if is_markup

markup-append : (s t : Text) → markup (s ++ t) ≡ markup s ++ markup t
unfolding markup
markup-append [] t = refl
markup-append (c ∷ s) t = elim (Bool-cases (is_markup c)) [
  | inl e ↦ rw e (ap (λ r. c ∷ r) (markup-append s t))
  | inr e ↦ rw e (markup-append s t)
]

markup-inert : (s : Text) → All IsInert s → markup s ≡ []
unfolding markup
markup-inert [] h = refl
markup-inert (c ∷ s) h =
    let plain : is_markup c ≡ false = let i = h.0 in ground arith in rw plain (markup-inert s h.1)

markup-escape_html : (s : Text) → markup (escape_html s) ≡ []
markup-escape_html s = markup-inert (escape_html s) (escape_html-IsInert s)

abbrev markup_of : List Text → Text
markup_of [] = []
markup_of (p ∷ ps) = markup p ++ markup_of ps

markup-joined : (ps : List Text) → markup (joined ps) ≡ markup_of ps
unfolding joined
markup-joined [] = unfold markup in refl
markup-joined (p ∷ ps) = markup-append p (joined ps) ∙ ap (λ r. markup p ++ r) (markup-joined ps)

ruleset markup_laws = (markup-joined, markup-escape_html, append-nil, append_assoc)

abbrev pub shown_keys : List Text → List Text
shown_keys = keep_if (λ k. not (text_eq k (codes "enter")))

-- A tag with one attribute, one with three, and the end of an element.
abbrev pub one_attribute : Text
one_attribute = codes "<\"\">"

abbrev pub three_attributes : Text
three_attributes = codes "<\"\"\"\"\"\">"

abbrev pub end_tag : Text
end_tag = codes "<>"

-- An element with one attribute around the markup `s`.
abbrev pub element : Text → Text
element s = one_attribute ++ s ++ end_tag

-- An element for each of the list.
abbrev pub each : List Text → Text
each [] = []
each (k ∷ ks) = one_attribute ++ end_tag ++ each ks

-- The markup of a row, from what there is to show: the two decision buttons stand in the row of a
-- pending request, and its state in the row of another.
abbrev pub row_markup : Bool → Bool → Bool → List Text → Text
row_markup pending has_text has_label keys =
    let label = if has_label then element [] else [] in
    let body = if has_text then element [] else label in
    let chip_box = if is_empty keys then [] else element (each keys) in
    let button = three_attributes ++ end_tag in
    let head = element (element [] ++ label ++ element []) in
    let actions = if pending then element (button ++ button) else element [] in
    element (head ++ element (element (body ++ chip_box) ++ actions))
