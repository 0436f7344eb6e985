-- ===== src/I18n.antt =====
-- The choice of a language and the look-up of texts, i18n.js
-- (internal/webui/assets/static/js). The catalog of i18n-catalog.js and what the browser says of
-- the user's languages are arguments.
pub mod Screen
pub mod Elements
pub mod Shown
pub mod Placeholders
use termcp.Base.{
  ℕ, Bool, true, false, Option, none, some, List, [], ◌∷◌, ◌++◌, Text, Dict, codes, text_eq, lookup,
  if◌then◌else◌, leb, ◌==◌, ◌+◌, ◌&&◌, ◌||◌, is_empty, strip_prefix,
}
use termcp.ConnForm.Toml.{is_word}
use termcp.ConnForm.Decimal.{show_nat}

-- The catalog: the texts of each language, and `none` when it did not load.
abbrev pub Catalog : Type 0
Catalog = Option (Dict (Dict Text))

-- `navigator.languages` and `navigator.language`.
pub record Navigator : Type 0 where
  pub languages : List Text
  pub language : Text

abbrev pub auto : Text
auto = codes "auto"

abbrev pub en : Text
en = codes "en"

abbrev pub zh_hans : Text
zh_hans = codes "zh-Hans"

abbrev pub zh_hant : Text
zh_hant = codes "zh-Hant"

abbrev pub langs : List Text
langs = en ∷ zh_hans ∷ zh_hant ∷ []

abbrev pub among : Text → List Text → Bool
among v [] = false
among v (l ∷ ls) = if text_eq l v then true else among v ls

unfoldable pub is_lang_choice : Text → Bool
is_lang_choice v = if text_eq v auto then true else among v langs

-- What the storage holds; it is `none` for a missing value and when reading throws.
unfoldable pub stored_lang_choice : Option Text → Text
stored_lang_choice none = auto
stored_lang_choice (some v) = if is_lang_choice v then v else auto

-- ASCII letters without their case.
abbrev pub fold_case : Text → Text
fold_case [] = []
fold_case (c ∷ s) = (if leb 65 c && leb c 90 then c + 32 else c) ∷ fold_case s

abbrev pub begins : Text → Text → Bool
begins p s = elim (strip_prefix p (fold_case s)) [ none ↦ false | some rest ↦ true ]

abbrev pub is_traditional : Text → Bool
is_traditional s =
    begins (codes "zh-hant") s
    || begins (codes "zh-tw") s
    || begins (codes "zh-hk") s
    || begins (codes "zh-mo") s

unfoldable pub lang_of_tag : Text → Option Text
lang_of_tag tag =
    if is_traditional tag
    then some zh_hant
    else if begins (codes "zh") tag
    then some zh_hans
    else if begins (codes "en") tag
    then some en
    else none

unfoldable pub first_lang : List Text → Text
first_lang [] = en
first_lang (tag ∷ tags) = elim (lang_of_tag tag) [ some l ↦ l | none ↦ first_lang tags ]

abbrev pub preferences : Navigator → List Text
preferences n = if is_empty n.languages then n.language ∷ [] else n.languages

unfoldable pub resolve_lang : Navigator → Text → Text
resolve_lang n [] = first_lang (preferences n)
resolve_lang n (c ∷ s) =
    if text_eq (c ∷ s) auto
    then first_lang (preferences n)
    else if is_lang_choice (c ∷ s)
    then c ∷ s
    else first_lang (preferences n)

abbrev pub entry : Text → Option (Dict Text) → Option Text
entry key none = none
entry key (some texts) = lookup key texts

unfoldable pub i18n_lookup : Catalog → Text → Text → Option Text
i18n_lookup none lang key = none
i18n_lookup (some cat) lang [] = none
i18n_lookup (some cat) lang (c ∷ key) = entry (c ∷ key) (lookup lang cat)

-- The replacement of one placeholder `{name}`.
abbrev pub fill : Dict Text → Text → Text
fill params name = elim (lookup name params) [ some v ↦ v | none ↦ codes "{" ++ name ++ codes "}" ]

-- The replacement of all of them: `some w` while `{w` has been read.
unfoldable pub scan_placeholders : Dict Text → Option Text → Text → Text
scan_placeholders params none [] = []
scan_placeholders params none (c ∷ s) =
    if c == 123 then scan_placeholders params (some []) s else c ∷ scan_placeholders params none s
scan_placeholders params (some w) [] = 123 ∷ w
scan_placeholders params (some w) (c ∷ s) =
    if is_word c
    then scan_placeholders params (some (w ++ c ∷ [])) s
    else if c == 123
    then 123 ∷ w ++ scan_placeholders params (some []) s
    else if c == 125 && (if is_empty w then false else true)
    then fill params w ++ scan_placeholders params none s
    else 123 ∷ w ++ c ∷ scan_placeholders params none s

unfoldable pub i18n_interpolate : Text → Option (Dict Text) → Text
i18n_interpolate s none = s
i18n_interpolate s (some params) = scan_placeholders params none s

unfoldable pub text_or_key : Text → Option Text → Option Text → Option (Dict Text) → Text
text_or_key key (some s) o params = i18n_interpolate s params
text_or_key key none (some s) params = i18n_interpolate s params
text_or_key key none none params = key

unfoldable pub t : Catalog → Text → Text → Option (Dict Text) → Text
t cat lang key params = text_or_key key (i18n_lookup cat lang key) (i18n_lookup cat en key) params

-- `params.count` is `some n`, next to the other parameters.
unfoldable pub t_count : Catalog → Text → Text → Text → Option ℕ → Dict Text → Text
t_count cat lang one other none params = t cat lang other none
t_count cat lang one other (some n) params =
    t cat lang (if n == 1 then one else other) (some ((codes "count", show_nat n) ∷ params))
