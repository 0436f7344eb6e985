-- ===== src/I18n/Shown.antt =====
-- What the page shows after any sequence of events of the language menu, i18n.js
-- (internal/webui/assets/static/js).
use termcp.Base.{
  ℕ, Bool, true, false, not, Option, some, List, [], ◌∷◌, Text, text_eq, if◌then◌else◌, ◌≡◌, refl,
  All, Bool-cases, inl, inr, ap, codes, subst, sym, ◌∙◌,
}
use termcp.I18n.{Catalog, Navigator, zh_hant, is_lang_choice, stored_lang_choice, resolve_lang}
use termcp.I18n.Screen.{
  Element, Screen, Reapplier, Event, chooses, toggles, clicks, types, apply_i18n, sync_lang_choice,
  set_lang_menu_open, close_lang_menu, toggle_lang_menu, focus_trigger, reapply_one, reapply, speak,
  store, choice_of, termcp_apply_lang, init_i18n, choose_lang, document_click, document_keydown,
  handle, handle_all,
}
use termcp.I18n.Elements.{Shows, apply_i18n-Texts, mark_options-Shows}

-- What the page is to show: the choice of the user and whether the menu is open.
pub record Wanted : Type 0 where
  pub choice : Text
  pub open_menu : Bool

-- The same events on that.
unfoldable pub want : Event → Wanted → Wanted
want (chooses v) a = record { choice = choice_of v; open_menu = false }
want toggles a = record a { open_menu = not a.open_menu }
want (clicks inside) a = if inside then a else record a { open_menu = false }
want (types key) a = if text_eq key (codes "Escape") then record a { open_menu = false } else a

unfoldable pub want_all : List Event → Wanted → Wanted
unfolding want
want_all [] a = a
want_all (e ∷ es) a = want_all es (want e a)

-- What the storage is to give at the next load, when it can be written.
abbrev pub Remembers : Bool → Text → Option Text → Type 0
Remembers false choice stored = Unit
Remembers true choice stored = stored_lang_choice stored ≡ choice

pub record IsShown {ℓ} {R : Type ℓ} (cat : Catalog) (nav : Navigator) (a : Wanted) (s : Screen R)
    : Type 0 where
  pub in_lang : s.lang ≡ resolve_lang nav a.choice
  pub document_lang : s.html_lang ≡ resolve_lang nav a.choice
  pub body_class : s.lang_hant ≡ text_eq (resolve_lang nav a.choice) zh_hant
  pub all_show : All (Shows cat (resolve_lang nav a.choice) a.choice) s.elements
  pub menu_there : s.has_menu ≡ true
  pub menu_state : s.menu_open ≡ a.open_menu
  pub menu_class : s.menu_hidden ≡ not a.open_menu
  pub menu_aria : s.expanded ≡ a.open_menu
  pub remembers : Remembers s.can_store a.choice s.stored

choice_of-valid : (v : Text) → stored_lang_choice (some (choice_of v)) ≡ choice_of v
unfolding stored_lang_choice is_lang_choice text_eq
choice_of-valid v = elim (Bool-cases (is_lang_choice v)) [
  | inl h ↦ rw (h, h) refl
  | inr h ↦ rw h refl
]

module _ {ℓ} {R : Type ℓ} where
  reapply-draws :
      (fs : List (Reapplier R)) (s : Screen R)
      → (r : R) × (es : List Element) × (n : ℕ) × (reapply fs s
          ≡ record s { drawn = r; shared = es; errors = n })
  unfolding reapply reapply_one
  reapply-draws [] s = (s.drawn, s.shared, s.errors, refl)
  reapply-draws (f ∷ fs) s = reapply-draws fs (reapply_one f s)

store-Remembers :
    (v : Text) (b : Bool) (old : Option Text)
    → Remembers b (choice_of v) (if b then some (choice_of v) else old)
store-Remembers v true old = choice_of-valid v
store-Remembers v false old = tt

stored-Remembers : (b : Bool) (o : Option Text) → Remembers b (stored_lang_choice o) o
stored-Remembers true o = refl
stored-Remembers false o = tt

module _ {ℓ} {R : Type ℓ} where
  -- The menu is there and closed, as the page has it when it loads.
  abbrev pub MenuClosed : Screen R → Type 0
  MenuClosed s =
      (s.has_menu ≡ true) × (s.menu_open ≡ false) × (s.menu_hidden ≡ true) × (s.expanded ≡ false)

  abbrev pub at_load : Screen R → Wanted
  at_load s = record { choice = stored_lang_choice s.stored; open_menu = false }

module _ {ℓ} {R : Type ℓ} (cat : Catalog) (nav : Navigator) where
  choose_lang-IsShown :
      (fs : List (Reapplier R)) (v : Text) (a : Wanted) (s : Screen R)
      → IsShown cat nav a s
      → IsShown cat nav
          (record { choice = choice_of v; open_menu = false })
          (choose_lang cat nav fs v s)
  unfolding choose_lang termcp_apply_lang sync_lang_choice close_lang_menu set_lang_menu_open
  choose_lang-IsShown fs v a s h =
      let lang = resolve_lang nav (choice_of v) in
      let (r, es, n, e) = reapply-draws fs (speak cat nav lang (store cat nav (choice_of v) s)) in
      rw (e, h.menu_there)
        (record {
          in_lang = refl;
          document_lang = refl;
          body_class = refl;
          all_show =
              mark_options-Shows cat lang (choice_of v) (apply_i18n cat lang s.elements)
                (apply_i18n-Texts cat lang s.elements);
          menu_there = refl;
          menu_state = refl;
          menu_class = refl;
          menu_aria = refl;
          remembers = store-Remembers v s.can_store s.stored;
        })

  set_lang_menu_open-IsShown :
      (b : Bool) (a : Wanted) (s : Screen R)
      → IsShown cat nav a s
      → IsShown cat nav (record a { open_menu = b }) (set_lang_menu_open b s)
  unfolding set_lang_menu_open
  set_lang_menu_open-IsShown b a s h = rw h.menu_there (record {
    in_lang = h.in_lang;
    document_lang = h.document_lang;
    body_class = h.body_class;
    all_show = h.all_show;
    menu_there = refl;
    menu_state = refl;
    menu_class = refl;
    menu_aria = refl;
    remembers = h.remembers;
  })

  focus_trigger-IsShown :
      (a : Wanted) (s : Screen R) → IsShown cat nav a s → IsShown cat nav a (focus_trigger s)
  focus_trigger-IsShown a s h = rw h.menu_there (record {
    in_lang = h.in_lang;
    document_lang = h.document_lang;
    body_class = h.body_class;
    all_show = h.all_show;
    menu_there = refl;
    menu_state = h.menu_state;
    menu_class = h.menu_class;
    menu_aria = h.menu_aria;
    remembers = h.remembers;
  })

  with_menu-IsShown :
      (b : Bool) (a : Wanted) (s : Screen R)
      → a.open_menu ≡ b
      → IsShown cat nav a s
      → IsShown cat nav (record a { open_menu = b }) s
  with_menu-IsShown b a s e h =
      subst (λ x. IsShown cat nav x s) (ap (λ c. record a { open_menu = c }) e) h

  document_click-IsShown :
      (inside : Bool) (a : Wanted) (s : Screen R)
      → IsShown cat nav a s
      → IsShown cat nav (want (clicks inside) a) (document_click inside s)
  unfolding document_click want close_lang_menu
  document_click-IsShown true a s h = elim (Bool-cases s.menu_open) [
    | inl e ↦ simp e h
    | inr e ↦ simp e h
  ]
  document_click-IsShown false a s h = elim (Bool-cases s.menu_open) [
    | inl e ↦ simp e (set_lang_menu_open-IsShown false a s h)
    | inr e ↦ simp e (with_menu-IsShown false a s (sym h.menu_state ∙ e) h)
  ]

  document_keydown-IsShown :
      (key : Text) (a : Wanted) (s : Screen R)
      → IsShown cat nav a s
      → IsShown cat nav (want (types key) a) (document_keydown key s)
  unfolding document_keydown want close_lang_menu
  document_keydown-IsShown key a s h = elim (Bool-cases s.menu_open) [
    | inl e ↦ elim (Bool-cases (text_eq key (codes "Escape"))) [
      | inl k ↦
          simp (e, k)
            (focus_trigger-IsShown (record a { open_menu = false }) (set_lang_menu_open false s)
              (set_lang_menu_open-IsShown false a s h))
      | inr k ↦ simp (e, k) h
    ]
    | inr e ↦ elim (Bool-cases (text_eq key (codes "Escape"))) [
      | inl k ↦ simp (e, k) (with_menu-IsShown false a s (sym h.menu_state ∙ e) h)
      | inr k ↦ simp (e, k) h
    ]
  ]

  toggle_lang_menu-IsShown :
      (a : Wanted) (s : Screen R)
      → IsShown cat nav a s
      → IsShown cat nav (want toggles a) (toggle_lang_menu s)
  unfolding toggle_lang_menu want
  toggle_lang_menu-IsShown a s h =
      subst
        (λ b.
          IsShown cat nav (record a { open_menu = not b }) (set_lang_menu_open (not s.menu_open) s))
        h.menu_state (set_lang_menu_open-IsShown (not s.menu_open) a s h)

  handle-IsShown :
      (fs : List (Reapplier R)) (e : Event) (a : Wanted) (s : Screen R)
      → IsShown cat nav a s
      → IsShown cat nav (want e a) (handle cat nav fs e s)
  unfolding handle want
  handle-IsShown fs (chooses v) a s h = choose_lang-IsShown fs v a s h
  handle-IsShown fs toggles a s h = toggle_lang_menu-IsShown a s h
  handle-IsShown fs (clicks inside) a s h = document_click-IsShown inside a s h
  handle-IsShown fs (types key) a s h = document_keydown-IsShown key a s h

  handled-IsShown :
      (fs : List (Reapplier R)) (es : List Event) (a : Wanted) (s : Screen R)
      → IsShown cat nav a s
      → IsShown cat nav (want_all es a) (handle_all cat nav fs es s)
  unfolding handle_all want_all
  handled-IsShown fs [] a s h = h
  handled-IsShown fs (e ∷ es) a s h =
      handled-IsShown fs es (want e a) (handle cat nav fs e s) (handle-IsShown fs e a s h)

  init_i18n-IsShown :
      (s : Screen R) → MenuClosed s → IsShown cat nav (at_load s) (init_i18n cat nav s)
  unfolding init_i18n sync_lang_choice
  init_i18n-IsShown s (there, shut, hid, unexpanded) =
      let choice = stored_lang_choice s.stored in
      let lang = resolve_lang nav choice in
      record {
        in_lang = refl;
        document_lang = refl;
        body_class = refl;
        all_show =
            mark_options-Shows cat lang choice (apply_i18n cat lang s.elements)
              (apply_i18n-Texts cat lang s.elements);
        menu_there = there;
        menu_state = shut;
        menu_class = hid;
        menu_aria = unexpanded;
        remembers = stored-Remembers s.can_store s.stored;
      }

  -- After the page has loaded with its menu closed, and after any sequence of choices, clicks and
  -- keys, whatever the redraws do or throw: the language, the attribute of the document and the
  -- class of the body are those of the last choice; every marked element that no redraw writes has
  -- the four texts of its keys in that language; the menu entries marked are those of the choice; the menu is open as the events
  -- left it, with its class and aria state in step; and the storage, if it can be written, gives
  -- the choice at the next load.
  pub handle_all-IsShown :
      (fs : List (Reapplier R)) (es : List Event) (s : Screen R)
      → MenuClosed s
      → IsShown cat nav (want_all es (at_load s)) (handle_all cat nav fs es (init_i18n cat nav s))
  handle_all-IsShown fs es s h =
      handled-IsShown fs es (at_load s) (init_i18n cat nav s) (init_i18n-IsShown s h)
