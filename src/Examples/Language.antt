-- ===== src/Examples/Language.antt =====
-- The theorems on the language of the page at a concrete page and sentence.
use termcp.Base.{
  ℕ, suc, true, false, none, some, List, [], ◌∷◌, codes, ◌≡◌, refl, arith, lookup, text_eq,
}
use termcp.I18n.{Catalog, Navigator, i18n_interpolate}
use termcp.I18n.Screen.{
  Element, Screen, Reapplier, Event, chooses, toggles, clicks, types, handle_all, init_i18n,
}
use termcp.I18n.Shown.{IsShown, want_all, at_load, handle_all-IsShown}
use termcp.I18n.Placeholders.{plain, slot, Part, i18n_interpolate-sentence, sentence, sense}

abbrev cat : Catalog
cat = some (
    (codes "en", (codes "common.close", codes "Close") ∷ (codes "lang.auto", codes "Auto") ∷ [])
    ∷ (codes "zh-Hant", (codes "common.close", codes "關閉") ∷ [])
    ∷ [])

abbrev nav : Navigator
nav = record { languages = codes "en-US" ∷ codes "zh-TW" ∷ []; language = codes "en-US" }

abbrev close : Element
close = record {
  key = some (codes "common.close");
  key_title = none;
  key_placeholder = none;
  key_aria = some (codes "common.close");
  text = codes "Close";
  title = codes "x";
  placeholder = [];
  aria_label = [];
  choice = none;
  active = false;
  aria_current = false;
}

abbrev auto_entry : Element
auto_entry = record close {
  key = some (codes "lang.auto");
  key_aria = none;
  choice = some (codes "auto");
}

abbrev hant_entry : Element
hant_entry = record close { key = none; key_aria = none; choice = some (codes "zh-Hant") }

-- `drawn` counts the redraws.
abbrev screen : Screen ℕ
screen = record {
  lang = [];
  html_lang = [];
  lang_hant = false;
  stored = none;
  can_store = true;
  elements = close ∷ auto_entry ∷ hant_entry ∷ [];
  shared = close ∷ [];
  lang_current = [];
  has_menu = true;
  menu_open = false;
  menu_hidden = true;
  expanded = false;
  focused = 0;
  drawn = 0;
  errors = 0;
}

abbrev throwing : Reapplier ℕ
throwing lang n shared = (n, shared, true)

abbrev counting : Reapplier ℕ
counting lang n shared = (suc n, [], false)

abbrev redraws : List (Reapplier ℕ)
redraws = throwing ∷ counting ∷ []

abbrev session : List Event
session = toggles ∷ clicks true ∷ chooses (codes "zh-Hant") ∷ toggles ∷ types (codes "Escape") ∷ []

handle_all-IsShown_example :
    IsShown cat nav
      (want_all session (at_load screen))
      (handle_all cat nav redraws session (init_i18n cat nav screen))
handle_all-IsShown_example =
    handle_all-IsShown cat nav redraws session screen (refl, refl, refl, refl)

abbrev notice : List Part
notice =
    plain (codes "Retry in ")
    ∷ slot b's' []
    ∷ plain (codes " s of ")
    ∷ slot b'm' (codes "ax")
    ∷ plain (codes "}")
    ∷ []

i18n_interpolate-sentence_example :
    i18n_interpolate (sentence notice) (some ((codes "s", codes "5") ∷ []))
    ≡ codes "Retry in 5 s of {max}}"
unfolding sense lookup text_eq
i18n_interpolate-sentence_example =
    i18n_interpolate-sentence ((codes "s", codes "5") ∷ []) notice (ground arith)
