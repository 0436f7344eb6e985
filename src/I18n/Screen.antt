-- ===== src/I18n/Screen.antt =====
-- The marked elements of the page, the language menu and the switch of the language, i18n.js
-- (internal/webui/assets/static/js). The dynamic parts of the page, which the other modules redraw
-- through `onLangChange`, are a type of their own: a redraw may change them and may throw. So are the
-- marked elements that a redraw writes too, as `updateSessionBatchBar` does with the titles of the
-- buttons of the session toolbar.
use termcp.Base.{
  Bool, false, not, Option, none, some, List, [], ◌∷◌, ◌++◌, Text, codes, text_eq, if◌then◌else◌,
  is_some, ◌||◌, ℕ, suc,
}
use termcp.I18n.{
  Catalog, Navigator, auto, zh_hant, is_lang_choice, stored_lang_choice, resolve_lang, t,
}

-- An element with its four `data-i18n` attributes and what they set. `choice` is the `data-lang` of
-- an entry of the language menu.
pub record Element : Type 0 where
  pub key : Option Text
  pub key_title : Option Text
  pub key_placeholder : Option Text
  pub key_aria : Option Text
  pub text : Text
  pub title : Text
  pub placeholder : Text
  pub aria_label : Text
  pub choice : Option Text
  pub active : Bool
  pub aria_current : Bool

abbrev pub has_i18n_attrs : Element → Bool
has_i18n_attrs e =
    is_some e.key || is_some e.key_title || is_some e.key_placeholder || is_some e.key_aria

-- `if (key) … = t(key)`.
abbrev pub relabel : Catalog → Text → Option Text → Text → Text
relabel cat lang none old = old
relabel cat lang (some []) old = old
relabel cat lang (some (c ∷ k)) old = t cat lang (c ∷ k) none

unfoldable pub translate : Catalog → Text → Element → Element
translate cat lang e = record e {
  text = relabel cat lang e.key e.text;
  title = relabel cat lang e.key_title e.title;
  placeholder = relabel cat lang e.key_placeholder e.placeholder;
  aria_label = relabel cat lang e.key_aria e.aria_label;
}

-- The elements below the root, the root among them.
unfoldable pub apply_i18n : Catalog → Text → List Element → List Element
apply_i18n cat lang [] = []
apply_i18n cat lang (e ∷ es) =
    (if has_i18n_attrs e then translate cat lang e else e) ∷ apply_i18n cat lang es

abbrev pub marked : Text → Option Text → Element → Element
marked choice none e = e
marked choice (some v) e = let on = text_eq v choice in record e { active = on; aria_current = on }

unfoldable pub mark_options : Text → List Element → List Element
mark_options choice [] = []
mark_options choice (e ∷ es) = marked choice e.choice e ∷ mark_options choice es

-- The text of the last entry of the menu that is marked.
abbrev pub current_text : Text → Text → List Element → Text
current_text choice found [] = found
current_text choice found (e ∷ es) = elim e.choice [
  | none ↦ current_text choice found es
  | some v ↦ current_text choice (if text_eq v choice then e.text else found) es
]

pub record Screen {ℓ} (R : Type ℓ) : Type ℓ where
  -- `_termcpLang`, the `lang` attribute of the document and the class `lang-hant` of its body
  pub lang : Text
  pub html_lang : Text
  pub lang_hant : Bool
  -- the stored choice, and whether the storage can be written
  pub stored : Option Text
  pub can_store : Bool
  pub elements : List Element
  -- the marked elements that redraws write too
  pub shared : List Element
  -- the text of the header control
  pub lang_current : Text
  -- the menu and its trigger: whether both are there, `_langMenuOpen`, the class `hidden` and
  -- `aria-expanded`, and how often the trigger was focused
  pub has_menu : Bool
  pub menu_open : Bool
  pub menu_hidden : Bool
  pub expanded : Bool
  pub focused : ℕ
  -- what the other modules draw, and the errors that their redraws reported
  pub drawn : R
  pub errors : ℕ

-- A redraw that `onLangChange` registers: given the language, it changes what is drawn and the shared
-- elements, and tells whether it threw.
abbrev pub Reapplier {ℓ} : Type ℓ → Type ℓ
Reapplier R = Text → R → List Element → R × List Element × Bool

abbrev pub choice_of : Text → Text
choice_of v = if is_lang_choice v then v else auto

pub data Event : Type 0 where
  chooses : Text → Event
  toggles : Event
  clicks : Bool → Event
  types : Text → Event

module _ {ℓ} {R : Type ℓ} where
  unfoldable pub sync_lang_choice : Text → Screen R → Screen R
  sync_lang_choice choice s = record s {
    elements = mark_options choice s.elements;
    shared = mark_options choice s.shared;
    lang_current = current_text choice [] s.elements;
  }

  unfoldable pub set_lang_menu_open : Bool → Screen R → Screen R
  set_lang_menu_open to_open s =
      if s.has_menu
      then record s { menu_open = to_open; menu_hidden = not to_open; expanded = to_open }
      else s

  unfoldable pub toggle_lang_menu : Screen R → Screen R
  unfolding set_lang_menu_open
  toggle_lang_menu s = set_lang_menu_open (not s.menu_open) s

  unfoldable pub close_lang_menu : Screen R → Screen R
  unfolding set_lang_menu_open
  close_lang_menu s = set_lang_menu_open false s

  abbrev pub focus_trigger : Screen R → Screen R
  focus_trigger s = if s.has_menu then record s { focused = suc s.focused } else s

  -- The listeners of `initLangMenu`: a click inside or outside the switch, and a key.
  unfoldable pub document_click : Bool → Screen R → Screen R
  unfolding close_lang_menu
  document_click inside s = if not s.menu_open then s else if inside then s else close_lang_menu s

  unfoldable pub document_keydown : Text → Screen R → Screen R
  unfolding close_lang_menu
  document_keydown key s =
      if not s.menu_open
      then s
      else if text_eq key (codes "Escape")
      then focus_trigger (close_lang_menu s)
      else s

  unfoldable pub on_lang_change : Reapplier R → List (Reapplier R) → List (Reapplier R)
  on_lang_change f fs = fs ++ f ∷ []

  unfoldable pub reapply_one : Reapplier R → Screen R → Screen R
  reapply_one f s =
      let (drawn', shared', threw) = f s.lang s.drawn s.shared in
      record s {
        drawn = drawn';
        shared = shared';
        errors = if threw then suc s.errors else s.errors;
      }

  unfoldable pub reapply : List (Reapplier R) → Screen R → Screen R
  unfolding reapply_one
  reapply [] s = s
  reapply (f ∷ fs) s = reapply fs (reapply_one f s)

module _ {ℓ} {R : Type ℓ} (cat : Catalog) (nav : Navigator) where
  abbrev pub speak : Text → Screen R → Screen R
  speak lang s = record s {
    lang = lang;
    html_lang = lang;
    lang_hant = text_eq lang zh_hant;
    elements = apply_i18n cat lang s.elements;
    shared = apply_i18n cat lang s.shared;
  }

  abbrev pub store : Text → Screen R → Screen R
  store choice s = record s { stored = if s.can_store then some choice else s.stored }

  unfoldable pub termcp_apply_lang : List (Reapplier R) → Text → Screen R → Screen R
  unfolding reapply sync_lang_choice
  termcp_apply_lang fs v s =
      let choice = choice_of v in
      sync_lang_choice choice (reapply fs (speak (resolve_lang nav choice) (store choice s)))

  unfoldable pub init_i18n : Screen R → Screen R
  unfolding sync_lang_choice
  init_i18n s =
      let choice = stored_lang_choice s.stored in
      sync_lang_choice choice (speak (resolve_lang nav choice) s)

  unfoldable pub choose_lang : List (Reapplier R) → Text → Screen R → Screen R
  unfolding termcp_apply_lang close_lang_menu
  choose_lang fs v s = focus_trigger (close_lang_menu (termcp_apply_lang fs v s))

  unfoldable pub handle : List (Reapplier R) → Event → Screen R → Screen R
  unfolding choose_lang toggle_lang_menu document_click document_keydown
  handle fs (chooses v) s = choose_lang fs v s
  handle fs toggles s = toggle_lang_menu s
  handle fs (clicks inside) s = document_click inside s
  handle fs (types key) s = document_keydown key s

  unfoldable pub handle_all : List (Reapplier R) → List Event → Screen R → Screen R
  unfolding handle
  handle_all fs [] s = s
  handle_all fs (e ∷ es) s = handle_all fs es (handle fs e s)
