-- ===== src/Util/Html.antt =====
-- `escapeHtml` of internal/webui/assets/static/js/util.js and `_hesc` of
-- internal/webui/assets/static/js/conn-form.js: one global replacement after the other.
use termcp.Base.{
  ℕ, true, false, Option, none, some, [], ◌∷◌, ◌++◌, append_assoc, ◌≡◌, ◌≢◌, refl, sym, ap, arith,
  Text, codes, text_eq, All, All-append, ◌==◌, if◌then◌else◌,
}

-- `s.replace(/c/g, r)`.
unfoldable pub replace_all : ℕ → Text → Text → Text
replace_all c r [] = []
replace_all c r (d ∷ s) = (if d == c then r else d ∷ []) ++ replace_all c r s

unfoldable pub escape_html : Text → Text
escape_html s = replace_all b'"' (codes "&quot;") (
    replace_all b'>' (codes "&gt;")
      (replace_all b'<' (codes "&lt;") (replace_all b'&' (codes "&amp;") s)))

unfoldable pub hesc : Text → Text
unfolding escape_html
hesc s = replace_all b'\'' (codes "&#39;") (escape_html s)

-- What one code unit becomes.
entity : ℕ → Text
entity c =
    if c == b'&'
    then codes "&amp;"
    else if c == b'<'
    then codes "&lt;"
    else if c == b'>'
    then codes "&gt;"
    else if c == b'"'
    then codes "&quot;"
    else c ∷ []

pub replace_all-append :
    (c : ℕ) (r s t : Text) → replace_all c r (s ++ t) ≡ replace_all c r s ++ replace_all c r t
unfolding replace_all
replace_all-append c r [] t = refl
replace_all-append c r (d ∷ s) t =
    let first = if d == c then r else d ∷ [] in
    rw (replace_all-append c r s t) (sym (append_assoc first _ _))

escape_html_one : (c : ℕ) → escape_html (c ∷ []) ≡ entity c
unfolding escape_html replace_all entity
escape_html_one c = ground arith

escape_html-append : (s t : Text) → escape_html (s ++ t) ≡ escape_html s ++ escape_html t
unfolding escape_html
escape_html-append s t = simp replace_all-append

escape_html-cons : (c : ℕ) (s : Text) → escape_html (c ∷ s) ≡ entity c ++ escape_html s
escape_html-cons c s = rw (← escape_html_one c) (escape_html-append (c ∷ []) s)

abbrev pub IsInert : ℕ → Type 0
IsInert c = (c ≢ b'<') × (c ≢ b'>') × (c ≢ b'"')

entity-IsInert : (c : ℕ) → All IsInert (entity c)
unfolding entity
entity-IsInert c = ground arith

-- Escaped text can neither open or close a tag nor end an attribute in double quotes.
pub escape_html-IsInert : (s : Text) → All IsInert (escape_html s)
escape_html-IsInert [] = unfold escape_html replace_all in tt
escape_html-IsInert (c ∷ s) =
    rw escape_html-cons
      (All-append IsInert (entity c) (escape_html s) (entity-IsInert c) (escape_html-IsInert s))

-- How a browser reads character references back: `pending` is the name behind an `&` so far.
abbrev reveal : Text → Text
reveal name =
    if text_eq name (codes "amp")
    then b'&' ∷ []
    else if text_eq name (codes "lt")
    then b'<' ∷ []
    else if text_eq name (codes "gt")
    then b'>' ∷ []
    else if text_eq name (codes "quot")
    then b'"' ∷ []
    else b'&' ∷ name ++ b';' ∷ []

pub decode : Text → Option Text → Text
decode [] none = []
decode [] (some name) = b'&' ∷ name
decode (c ∷ s) none = elim (c == b'&') [ true ↦ decode s (some []) | false ↦ c ∷ decode s none ]
decode (c ∷ s) (some name) = elim (c == b';') [
  | true ↦ reveal name ++ decode s none
  | false ↦ decode s (some (name ++ c ∷ []))
]

decode-entity : (c : ℕ) (s : Text) → decode (entity c ++ s) none ≡ c ∷ decode s none
unfolding entity decode text_eq
decode-entity c s = ground arith

-- The browser shows the text as it was, markup characters included.
pub decode-escape_html : (s : Text) → decode (escape_html s) none ≡ s
decode-escape_html [] = unfold escape_html replace_all decode in refl
decode-escape_html (c ∷ s) =
    rw (escape_html-cons, decode-entity) (ap (◌∷◌ c) (decode-escape_html s))
