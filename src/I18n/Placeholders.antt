-- ===== src/I18n/Placeholders.antt =====
-- The replacement of placeholders, i18n.js (internal/webui/assets/static/js): i18nInterpolate on a
-- sentence that is put together from plain parts and placeholders.
use termcp.Base.{
  ℕ, true, false, none, some, List, [], ◌∷◌, ◌++◌, Text, Dict, codes, ◌≡◌, refl, All, append_assoc,
  append-nil, ◌==◌, ap, ◌∙◌,
}
use termcp.ConnForm.Toml.{is_word}
use termcp.I18n.{fill, scan_placeholders, i18n_interpolate}

pub data Part : Type 0 where
  plain : Text → Part
  slot : ℕ → Text → Part

abbrev pub spelled : Part → Text
spelled (plain s) = s
spelled (slot c w) = codes "{" ++ (c ∷ w) ++ codes "}"

abbrev pub meaning : Dict Text → Part → Text
meaning params (plain s) = s
meaning params (slot c w) = fill params (c ∷ w)

abbrev pub IsPart : Part → Type 0
IsPart (plain s) = All (λ c. (c == 123) ≡ false) s
IsPart (slot c w) = All (λ d. is_word d ≡ true) (c ∷ w)

unfoldable pub sentence : List Part → Text
sentence [] = []
sentence (p ∷ ps) = spelled p ++ sentence ps

unfoldable pub sense : Dict Text → List Part → Text
sense params [] = []
sense params (p ∷ ps) = meaning params p ++ sense params ps

scan-plain :
    (params : Dict Text) (s rest : Text)
    → All (λ c. (c == 123) ≡ false) s
    → scan_placeholders params none (s ++ rest) ≡ s ++ scan_placeholders params none rest
unfolding scan_placeholders
scan-plain params [] rest h = refl
scan-plain params (c ∷ s) rest (h, hs) = rw (h, scan-plain params s rest hs) refl

scan-word :
    (params : Dict Text) (w v rest : Text)
    → All (λ d. is_word d ≡ true) v
    → scan_placeholders params (some w) (v ++ rest) ≡ scan_placeholders params (some (w ++ v)) rest
unfolding scan_placeholders
scan-word params w [] rest h = rw (append-nil w) refl
scan-word params w (c ∷ v) rest (h, hs) = rw h (
    scan-word params (w ++ c ∷ []) v rest hs
    ∙ ap (λ x. scan_placeholders params (some x) rest) (append_assoc w (c ∷ []) v))

scan-slot :
    (params : Dict Text) (c : ℕ) (w rest : Text)
    → All (λ d. is_word d ≡ true) (c ∷ w)
    → scan_placeholders params none (spelled (slot c w) ++ rest)
      ≡ fill params (c ∷ w) ++ scan_placeholders params none rest
unfolding scan_placeholders
scan-slot params c w rest h =
    ap (λ x. scan_placeholders params (some []) (c ∷ x)) (append_assoc w (125 ∷ []) rest)
    ∙ scan-word params [] (c ∷ w) (125 ∷ rest) h

-- A sentence of plain parts without an opening brace and of placeholders with a name of word
-- characters becomes the plain parts and, for each placeholder, the parameter of its name, or the
-- placeholder itself when there is none.
pub i18n_interpolate-sentence :
    (params : Dict Text) (ps : List Part)
    → All IsPart ps
    → i18n_interpolate (sentence ps) (some params) ≡ sense params ps
unfolding i18n_interpolate scan_placeholders sentence sense
i18n_interpolate-sentence params [] h = refl
i18n_interpolate-sentence params (plain s ∷ ps) (h, hs) =
    scan-plain params s (sentence ps) h ∙ ap (λ x. s ++ x) (i18n_interpolate-sentence params ps hs)
i18n_interpolate-sentence params (slot c w ∷ ps) (h, hs) =
    scan-slot params c w (sentence ps) h
    ∙ ap (λ x. fill params (c ∷ w) ++ x) (i18n_interpolate-sentence params ps hs)
