-- ===== src/ConnForm/Escape.antt =====
-- How a value is quoted, `_tomlEscape` and `_tomlVal` of
-- internal/webui/assets/static/js/conn-form.js, and what `_parseConnTOML` makes of the quotes.
use termcp.Base.{
  ℕ, ◌≤◌, Bool, true, false, [], ◌∷◌, ◌++◌, ◌≡◌, ◌≢◌, ◌↔◌, refl, ap, sym, ◌∙◌, inl, inr, arith,
  Text, All, is_empty, length, ◌==◌, if◌then◌else◌, Bool-cases,
}
use termcp.Util.Html.{replace_all}

unfoldable pub toml_escape : Text → Text
unfolding replace_all
toml_escape v = replace_all b'"' (b'\\' ∷ b'"' ∷ []) (replace_all b'\\' (b'\\' ∷ b'\\' ∷ []) v)

unfoldable pub toml_val : Text → Text
unfolding toml_escape
toml_val s = if is_empty s then b'"' ∷ b'"' ∷ [] else (b'"' ∷ toml_escape s) ++ b'"' ∷ []

-- `pending` is whether a backslash has been read and not yet written.
unfoldable pub unescape_from : Bool → Text → Text
unescape_from pending [] = if pending then b'\\' ∷ [] else []
unescape_from pending (c ∷ s) =
    let rest = unescape_from (c == b'\\') s in
    if c == b'\\'
    then (if pending then b'\\' ∷ rest else rest)
    else if pending
    then (if c == b'"' then b'"' ∷ rest else b'\\' ∷ c ∷ rest)
    else c ∷ rest

-- `v.replace(/\\"/g, '"')`.
unfoldable pub unescape_quotes : Text → Text
unfolding unescape_from
unescape_quotes = unescape_from false

-- Each backslash twice.
unfoldable pub doubled : Text → Text
unfolding replace_all
doubled = replace_all b'\\' (b'\\' ∷ b'\\' ∷ [])

unescape_from-escape :
    (pending : Bool) (v : Text)
    → unescape_from pending (toml_escape v) ≡ (if pending then b'\\' ∷ doubled v else doubled v)
unfolding toml_escape unescape_from doubled
unescape_from-escape true [] = refl
unescape_from-escape false [] = refl
unescape_from-escape pending (c ∷ v) = elim (Bool-cases (c == b'\\')) [
  | inl e ↦ let ih = unescape_from-escape true v in ground (arith, ih)
  | inr e ↦ let ih = unescape_from-escape false v in ground (arith, ih)
]

-- Reading a quoted value back gives it with each of its backslashes doubled, whatever it holds.
pub unescape_quotes-toml_escape : (v : Text) → unescape_quotes (toml_escape v) ≡ doubled v
unfolding unescape_quotes
unescape_quotes-toml_escape v = unescape_from-escape false v

abbrev pub HasNoBackslash : Text → Type 0
HasNoBackslash = All (λ c. c ≢ b'\\')

length-doubled : (v : Text) → length v ≤ length (doubled v)
unfolding doubled replace_all
length-doubled [] = omega arith
length-doubled (c ∷ v) = let ih = length-doubled v in ground (arith, ih)

doubled-same : (v : Text) → HasNoBackslash v → doubled v ≡ v
unfolding doubled replace_all
doubled-same [] h = refl
doubled-same (c ∷ v) (n, h) = let ih = doubled-same v h in ground (arith, ih)

grows : (c : ℕ) (v s : Text) → length v ≤ length s → b'\\' ∷ b'\\' ∷ s ≢ c ∷ v
grows c v s low e = let l = ap length e in omega arith

tail_eq : (c : ℕ) (s t : Text) → c ∷ s ≡ c ∷ t → s ≡ t
tail_eq c s t e = ap (elim [ [] ↦ [] | d ∷ r ↦ r ]) e

same-doubled : (v : Text) → doubled v ≡ v → HasNoBackslash v
unfolding doubled replace_all
same-doubled [] e = tt
same-doubled (c ∷ v) e = elim (Bool-cases (c == b'\\')) [
  | inl f ↦
      let step : doubled (c ∷ v) ≡ b'\\' ∷ b'\\' ∷ doubled v = rw f refl in
      absurd (grows c v (doubled v) (length-doubled v) (sym step ∙ e))
  | inr f ↦
      let step : doubled (c ∷ v) ≡ c ∷ doubled v = rw f refl in
      let apart : c ≢ b'\\' = ground arith in
      (apart, same-doubled v (tail_eq c (doubled v) v (sym step ∙ e)))
]

-- Doubling the backslashes changes nothing exactly when there is none.
pub doubled_same_iff : (v : Text) → (doubled v ≡ v) ↔ HasNoBackslash v
doubled_same_iff v = (λ e. same-doubled v e, λ h. doubled-same v h)
