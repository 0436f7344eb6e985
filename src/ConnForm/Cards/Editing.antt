-- ===== src/ConnForm/Cards/Editing.antt =====
-- The expanded card of the jump chain under the events of the jump box of
-- internal/webui/assets/static/js/conn-form.js.
use termcp.Base.{
  ℕ, zero, suc, ◌+◌, ◌<◌, ◌≡◌, ◌≢◌, refl, ap, ◌∙◌, subst, arith, inl, inr, Bool, false, ◌&&◌,
  Option, none, some, List, [], ◌∷◌, ◌++◌, Text, length, length-append, ◌==◌, Bool-cases, ==_self,
  Option-cases,
}
use mathlib.Core.Option as Option
use termcp.ConnForm.Toml.{Doc, str}
use termcp.ConnForm.Cards.{
  JumpCard, Field, host_field, port_field, user_field, auth_field, password_field, pem_field,
  passphrase_field, proxy_field, Editor, add_jump, input_field, imported, remove_jump, save_jump,
  cancel_jump, open_jump, modify_at, remove_at, replace_at, is_editing, shift_after, set_card,
  section_to_jump, jumps_from_sections, new_jump_card,
}

pub data Act : Type 0 where
  adds saves : Act
  inputs : ℕ → Field → Text → Act
  imports : ℕ → Doc → Act
  removes cancels opens : ℕ → Act

unfoldable pub act : Act → Editor → Editor
unfolding add_jump input_field imported remove_jump save_jump cancel_jump open_jump
act adds e = add_jump e
act saves e = save_jump e
act (inputs i f v) e = input_field i f v e
act (imports i parsed) e = imported i parsed e
act (removes i) e = remove_jump i e
act (cancels i) e = cancel_jump i e
act (opens i) e = open_jump i e

-- The index of an event is that of a card.
abbrev pub Names : Act → Editor → Type 0
Names (imports i parsed) e = i < length e.cards
Names (removes i) e = i < length e.cards
Names (opens i) e = i < length e.cards
Names (cancels i) e = i < length e.cards
Names _ e = Unit

abbrev pub Within : Option ℕ → Bool → ℕ → Type 0
Within none new n = new ≡ false
Within (some i) new n = i < n

abbrev pub IsOpen : Editor → Type 0
IsOpen e = Within e.editing e.editing_new (length e.cards)

length-remove_at :
    (i : ℕ) (cs : List JumpCard) → i < length cs → length (remove_at i cs) + 1 ≡ length cs
length-remove_at i [] h = absurd (omega arith)
length-remove_at zero (c ∷ cs) h = omega arith
length-remove_at (suc i) (c ∷ cs) h = omega (arith, length-remove_at i cs)

length-modify_at :
    (i : ℕ) (f : JumpCard → JumpCard) (cs : List JumpCard) → length (modify_at i f cs) ≡ length cs
length-modify_at i f [] = refl
length-modify_at zero f (c ∷ cs) = refl
length-modify_at (suc i) f (c ∷ cs) = ap suc (length-modify_at i f cs)

length-replace_at :
    (i : ℕ) (new cs : List JumpCard)
    → i < length cs
    → length (replace_at i new cs) + 1 ≡ length cs + length new
length-replace_at i new [] h = absurd (omega arith)
length-replace_at zero new (c ∷ cs) h = omega (arith, length-append new cs)
length-replace_at (suc i) new (c ∷ cs) h = omega (arith, length-replace_at i new cs)

-- Every event of the jump box on a card of the chain leaves the expanded card, when there is one, a
-- card of the chain, and "new" set only while a card is expanded.
pub act-IsOpen : (a : Act) (e : Editor) → Names a e → IsOpen e → IsOpen (act a e)
unfolding act
act-IsOpen adds e n v = omega (arith, length-append e.cards (new_jump_card ∷ []))
act-IsOpen saves e n v = refl
act-IsOpen (inputs i f t) e n v = rw (length-modify_at i (set_card f t) e.cards) v
act-IsOpen (imports i parsed) e n v =
    let new = section_to_jump parsed.root ∷ jumps_from_sections parsed.sections in
    omega (arith, length-replace_at i new e.cards)
act-IsOpen (removes i) e n v = elim (Option-cases e.editing) [
  | inl f ↦
      let w : e.editing_new ≡ false = subst (λ o. Within o e.editing_new (length e.cards)) f v in
      rw f w
  | inr (j, f) ↦
      let w : j < length e.cards = subst (λ o. Within o e.editing_new (length e.cards)) f v in
      elim (Bool-cases (j == i)) [
        | inl g ↦ rw (f, g) refl
        | inr g ↦ rw (f, g) (ground (arith, length-remove_at i e.cards n))
      ]
]
act-IsOpen (cancels i) e n v = elim (Bool-cases (e.editing_new && is_editing i e)) [
  | inl f ↦ rw f refl
  | inr f ↦ rw f refl
]
act-IsOpen (opens i) e n v = elim (Bool-cases (is_editing i e)) [ inl f ↦ rw f v | inr f ↦ rw f n ]

-- The card at an index.
abbrev pub nth : ℕ → List JumpCard → Option JumpCard
nth i [] = none
nth zero (c ∷ cs) = some c
nth (suc i) (c ∷ cs) = nth i cs

nth-remove_at :
    (i j : ℕ) (cs : List JumpCard) → j ≢ i → nth (shift_after i j) (remove_at i cs) ≡ nth j cs
nth-remove_at i j [] ne = refl
nth-remove_at zero zero (c ∷ cs) ne = absurd (ne refl)
nth-remove_at zero (suc j) (c ∷ cs) ne =
    let e : shift_after 0 (suc j) ≡ j = ground arith in ap (λ k. nth k cs) e
nth-remove_at (suc i) zero (c ∷ cs) ne =
    let e : shift_after (suc i) zero ≡ 0 = ground arith in ap (λ k. nth k (c ∷ remove_at i cs)) e
nth-remove_at (suc i) (suc j) (c ∷ cs) ne =
    let apart : j ≢ i = λ e. ne (ap suc e) in
    let e : shift_after (suc i) (suc j) ≡ suc (shift_after i j) = ground arith in
    ap (λ k. nth k (c ∷ remove_at i cs)) e ∙ nth-remove_at i j cs apart

abbrev pub open_card : Editor → Option JumpCard
open_card e = elim e.editing [ none ↦ none | some i ↦ nth i e.cards ]

-- Removing one card of the chain keeps the editor open on the same card as before, unless it is the
-- card that goes.
pub remove_jump-keeps_card :
    (i : ℕ) (e : Editor) → is_editing i e ≡ false → open_card (remove_jump i e) ≡ open_card e
unfolding remove_jump
remove_jump-keeps_card i e other = elim (Option-cases e.editing) [
  | inl f ↦ rw f refl
  | inr (j, f) ↦
      let g : (j == i) ≡ false =
        subst (λ (o : Option ℕ). (elim o [ none ↦ false | some k ↦ k == i ]) ≡ false) f other in
      let apart : j ≢ i = ground arith in rw (f, g) (nth-remove_at i j e.cards apart)
]

remove_at-snoc : (cs : List JumpCard) (c : JumpCard) → remove_at (length cs) (cs ++ c ∷ []) ≡ cs
remove_at-snoc [] c = refl
remove_at-snoc (d ∷ cs) c = ap (λ r. d ∷ r) (remove_at-snoc cs c)

-- Adding a jump and cancelling it gives the chain back, with no card expanded.
pub cancel_jump-add_jump :
    (e : Editor)
    → cancel_jump (length e.cards) (add_jump e) ≡ record e { editing = none; editing_new = false }
unfolding cancel_jump add_jump
cancel_jump-add_jump e = rw (==_self (length e.cards), remove_at-snoc e.cards new_jump_card) refl

-- What a field of a card holds.
abbrev pub Reads : Field → Text → JumpCard → Type 0
Reads host_field v c = c.host ≡ str v
Reads port_field v c = c.port ≡ str v
Reads user_field v c = c.user ≡ str v
Reads auth_field v c = c.auth ≡ v
Reads password_field v c = c.password ≡ str v
Reads pem_field v c = c.pem ≡ str v
Reads passphrase_field v c = c.passphrase ≡ str v
Reads proxy_field v c = c.proxy ≡ str v

set_card-Reads : (f : Field) (v : Text) (c : JumpCard) → Reads f v (set_card f v c)
set_card-Reads host_field v c = refl
set_card-Reads port_field v c = refl
set_card-Reads user_field v c = refl
set_card-Reads auth_field v c = refl
set_card-Reads password_field v c = refl
set_card-Reads pem_field v c = refl
set_card-Reads passphrase_field v c = refl
set_card-Reads proxy_field v c = refl

nth-modify_at :
    (i : ℕ) (f : JumpCard → JumpCard) (cs : List JumpCard) (c : JumpCard)
    → nth i cs ≡ some c
    → nth i (modify_at i f cs) ≡ some (f c)
nth-modify_at i f [] c e = cc
nth-modify_at zero f (d ∷ cs) c e = ap (Option.map f) e
nth-modify_at (suc i) f (d ∷ cs) c e = nth-modify_at i f cs c e

nth-modify_at_other :
    (i j : ℕ) (f : JumpCard → JumpCard) (cs : List JumpCard)
    → j ≢ i
    → nth j (modify_at i f cs) ≡ nth j cs
nth-modify_at_other i j f [] ne = refl
nth-modify_at_other zero zero f (d ∷ cs) ne = absurd (ne refl)
nth-modify_at_other zero (suc j) f (d ∷ cs) ne = refl
nth-modify_at_other (suc i) zero f (d ∷ cs) ne = refl
nth-modify_at_other (suc i) (suc j) f (d ∷ cs) ne =
    nth-modify_at_other i j f cs (λ e. ne (ap suc e))

-- The cards after the expanded card `i` is opened, typed into and called off.
abbrev pub called_off : ℕ → Field → Text → Editor → List JumpCard
called_off i f v e = (cancel_jump i (input_field i f v (open_jump i e))).cards

opened :
    (i : ℕ) (e : Editor)
    → is_editing i e ≡ false
    → open_jump i e ≡ record e { editing = some i; editing_new = false }
unfolding open_jump
opened i e shut = rw shut refl

called_off-cards :
    (i : ℕ) (f : Field) (v : Text) (e : Editor)
    → is_editing i e ≡ false
    → called_off i f v e ≡ modify_at i (set_card f v) e.cards
unfolding cancel_jump input_field
called_off-cards i f v e shut =
    ap (λ d. (cancel_jump i (input_field i f v d)).cards) (opened i e shut)

-- When a card of the chain is opened, a text is typed into one of its fields and the card is called
-- off, that field of the card holds the text all the same, and every other card is as it was.
pub cancel_jump-keeps_input :
    (i : ℕ) (f : Field) (v : Text) (e : Editor) (c : JumpCard)
    → is_editing i e ≡ false
    → nth i e.cards ≡ some c
    → ((d : JumpCard) × (nth i (called_off i f v e) ≡ some d) × Reads f v d)
      × ((j : ℕ) → j ≢ i → nth j (called_off i f v e) ≡ nth j e.cards)
cancel_jump-keeps_input i f v e c shut there = rw (called_off-cards i f v e shut) (
  (set_card f v c, nth-modify_at i (set_card f v) e.cards c there, set_card-Reads f v c),
  λ j ne. nth-modify_at_other i j (set_card f v) e.cards ne,
)
