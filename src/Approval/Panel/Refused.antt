-- ===== src/Approval/Panel/Refused.antt =====
-- A change of the review mode that does not take place:
-- internal/webui/assets/static/js/terminal-view.js.
use termcp.Base.{Bool, true, false, not, List, [], ◌∷◌, is_empty, ◌≡◌, refl, ap, ◌∙◌}
use termcp.Approval.Panel.{
  Panel, Event, flips, answers_dialog, answers_on, answers_off, flip_switch, apply_review_toggle,
  off_confirmed, turned_on, turned_off, on_event, go_through,
}

-- The ways it fails: the dialog is called off or, once confirmed, the server refuses; to turn review on
-- there is no dialog.
abbrev pub denials : (mode confirmed : Bool) → List Event
denials true false = answers_dialog false ∷ []
denials true true = answers_dialog true ∷ answers_off false ∷ []
denials false confirmed = answers_on false ∷ []

denied-switch :
    (m c : Bool) (p : Panel)
    → is_empty p.parent ≡ false
    → p.switch_disabled ≡ false
    → p.mode ≡ m
    → let q = go_through (flips ∷ denials m c) p in
      q.mode ≡ p.mode × q.switch_checked ≡ not p.switch_checked × q.switch_disabled ≡ false
unfolding go_through on_event flip_switch apply_review_toggle off_confirmed turned_on turned_off
denied-switch true false p e d m = simp (e, d, m) (refl, refl, refl)
denied-switch true true p e d m = simp (e, d, m) (refl, refl, refl)
denied-switch false c p e d m = simp (e, d, m) (refl, refl, refl)

-- When the switch of the panel shows the mode and is clicked, and the change is called off or refused,
-- the mode is as it was and the switch, enabled again, shows the other one.
pub go_through-denied :
    (p : Panel) (confirmed : Bool)
    → is_empty p.parent ≡ false
    → p.switch_disabled ≡ false
    → p.switch_checked ≡ p.mode
    → let q = go_through (flips ∷ denials p.mode confirmed) p in
      q.mode ≡ p.mode × q.switch_checked ≡ not p.mode × q.switch_disabled ≡ false
go_through-denied p confirmed e d s =
    let (kept, flipped, enabled) = denied-switch p.mode confirmed p e d refl in
    (kept, flipped ∙ ap not s, enabled)
