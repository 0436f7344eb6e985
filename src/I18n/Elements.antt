-- ===== src/I18n/Elements.antt =====
-- What an element of the page shows in a language, and what a redraw makes of it: i18n.js
-- (internal/webui/assets/static/js).
use termcp.Base.{
  Bool, false, Option, none, some, List, [], ◌∷◌, Text, text_eq, ◌≡◌, refl, arith, All, is_some,
  Bool-cases, inl, inr, subst, sym,
}
use termcp.I18n.{Catalog, t}
use termcp.I18n.Screen.{
  Element, relabel, has_i18n_attrs, translate, apply_i18n, marked, mark_options,
}

-- A text that follows the key of its attribute.
abbrev pub Says : Catalog → Text → Option Text → Text → Type 0
Says cat lang none text = Unit
Says cat lang (some []) text = Unit
Says cat lang (some (c ∷ k)) text = text ≡ t cat lang (c ∷ k) none

-- A menu entry that is marked exactly for the choice.
abbrev pub MarkedFor : Text → Option Text → Bool → Bool → Type 0
MarkedFor choice none active current = Unit
MarkedFor choice (some v) active current =
    (active ≡ text_eq v choice) × (current ≡ text_eq v choice)

relabel-Says :
    (cat : Catalog) (lang : Text) (k : Option Text) (old : Text)
    → Says cat lang k (relabel cat lang k old)
relabel-Says cat lang none old = tt
relabel-Says cat lang (some []) old = tt
relabel-Says cat lang (some (c ∷ k)) old = refl

-- The four texts of an element follow their keys.
abbrev pub Texts : Catalog → Text → Element → Type 0
Texts cat lang e =
    Says cat lang e.key e.text
    × Says cat lang e.key_title e.title
    × Says cat lang e.key_placeholder e.placeholder
    × Says cat lang e.key_aria e.aria_label

translate-Texts :
    (cat : Catalog) (lang : Text) (e : Element) → Texts cat lang (translate cat lang e)
unfolding translate
translate-Texts cat lang e = (
  relabel-Says cat lang e.key e.text,
  relabel-Says cat lang e.key_title e.title,
  relabel-Says cat lang e.key_placeholder e.placeholder,
  relabel-Says cat lang e.key_aria e.aria_label,
)

-- An element that shows a language and marks a choice.
abbrev pub Shows : Catalog → Text → Text → Element → Type 0
Shows cat lang choice e = Texts cat lang e × MarkedFor choice e.choice e.active e.aria_current

absent-Says :
    (cat : Catalog) (lang : Text) (k : Option Text) (old : Text)
    → is_some k ≡ false
    → Says cat lang k old
absent-Says cat lang none old h = tt
absent-Says cat lang (some k) old h = cc

unmarked-Texts :
    (cat : Catalog) (lang : Text) (e : Element) → has_i18n_attrs e ≡ false → Texts cat lang e
unmarked-Texts cat lang e h = (
  absent-Says cat lang e.key e.text (ground arith),
  absent-Says cat lang e.key_title e.title (ground arith),
  absent-Says cat lang e.key_placeholder e.placeholder (ground arith),
  absent-Says cat lang e.key_aria e.aria_label (ground arith),
)

pub apply_i18n-Texts :
    (cat : Catalog) (lang : Text) (es : List Element)
    → All (Texts cat lang) (apply_i18n cat lang es)
unfolding apply_i18n
apply_i18n-Texts cat lang [] = tt
apply_i18n-Texts cat lang (e ∷ es) = elim (Bool-cases (has_i18n_attrs e)) [
  | inl h ↦ (rw h (translate-Texts cat lang e), apply_i18n-Texts cat lang es)
  | inr h ↦ (rw h (unmarked-Texts cat lang e h), apply_i18n-Texts cat lang es)
]

choice-marked :
    (choice : Text) (o : Option Text) (e : Element) → (marked choice o e).choice ≡ e.choice
choice-marked choice none e = refl
choice-marked choice (some v) e = refl

marked-Texts :
    (cat : Catalog) (lang choice : Text) (o : Option Text) (e : Element)
    → Texts cat lang e
    → Texts cat lang (marked choice o e)
marked-Texts cat lang choice none e h = h
marked-Texts cat lang choice (some v) e h = h

marked-MarkedFor :
    (choice : Text) (o : Option Text) (e : Element)
    → MarkedFor choice o (marked choice o e).active (marked choice o e).aria_current
marked-MarkedFor choice none e = tt
marked-MarkedFor choice (some v) e = (refl, refl)

marked-Shows :
    (cat : Catalog) (lang choice : Text) (e : Element)
    → Texts cat lang e
    → Shows cat lang choice (marked choice e.choice e)
marked-Shows cat lang choice e h = (
  marked-Texts cat lang choice e.choice e h,
  subst
      (λ o.
        MarkedFor choice o (marked choice e.choice e).active
          (marked choice e.choice e).aria_current)
      (sym (choice-marked choice e.choice e)) (marked-MarkedFor choice e.choice e),
)

pub mark_options-Shows :
    (cat : Catalog) (lang choice : Text) (es : List Element)
    → All (Texts cat lang) es
    → All (Shows cat lang choice) (mark_options choice es)
unfolding mark_options
mark_options-Shows cat lang choice [] h = tt
mark_options-Shows cat lang choice (e ∷ es) (h, hs) =
    (marked-Shows cat lang choice e h, mark_options-Shows cat lang choice es hs)
