-- ===== src/Window/Closing.antt =====
-- The strip and the selection after `closeChannelTab` of
-- internal/webui/assets/static/js/terminal-view.js.
use termcp.Base.{
  true, false, Option, none, some, [], ◌∷◌, Text, Dict, ◌≡◌, refl, sym, ap, subst, ◌∙◌, inl, inr,
  arith, text_eq_iff, text_eq_self, lookup, delete, lookup-delete, keys, length, Option-cases,
  Bool-cases, if◌then◌else◌,
}
use termcp.Window.{Win, Channel}
use termcp.Window.Outbox.{Outbox}
use termcp.Window.Channels.{is_active, select, drop_channel, after_close, close_channel_tab}
use termcp.Window.Strip.{elements, ActiveOpen, IsStrip, select-IsStrip}
use termcp.Window.Dropped.{
  last_or, IsLoose, drop_channel-IsLoose, loose_kept, loose_last, loose_neighbor, last_or-none,
  switch_or_settle-open, emptied_window,
}

-- What is selected once the active channel `sid` has been dropped.
data Settled (sid : Text) (w : Win) : Type 0 where
  emptied :
      w.channels ≡ []
      → after_close sid w
        ≡ record w { active_channel_sid = none; empty_shown = true; body_hidden = true }
      → Settled sid w
  moved :
      (n : Text) (ch : Channel)
      → last_or none (keys w.channels) ≡ some n
      → lookup n w.channels ≡ some ch
      → after_close sid w ≡ select n w
      → Settled sid w

settled : (sid : Text) (w : Win) → IsLoose sid w → w.active_channel_sid ≡ some sid → Settled sid w
unfolding after_close
settled sid w v act =
    let on : is_active w.active_channel_sid sid ≡ true =
      ap (λ (a : Option Text). is_active a sid) act ∙ text_eq_self sid in
    elim (Option-cases (last_or none (keys w.channels))) [
      | inl e ↦
          let bare : w.channels ≡ [] = last_or-none w.channels e in
          emptied bare
            (rw (on, loose_neighbor sid w v, e) (emptied_window w (v.counted ∙ ap length bare)))
      | inr (n, e) ↦
          let (ch, h, ne, off) = loose_last sid n w v e in
          moved n ch e h (
            rw (on, loose_neighbor sid w v, e)
              (switch_or_settle-open n w ch ne h
                (ap (λ (a : Option Text). is_active a n) act ∙ off)))
    ]

bare_elements :
    (a b : Option Text) (m : Dict Channel) → m ≡ [] → elements a (keys m) ≡ elements b (keys m)
bare_elements a b [] e = refl
bare_elements a b (p ∷ m) e = cc

loose_emptied :
    (sid : Text) (w : Win)
    → IsLoose sid w
    → w.channels ≡ []
    → w.active_channel_sid ≡ some sid
    → IsStrip (record w { active_channel_sid = none; empty_shown = true; body_hidden = true })
loose_emptied sid w v bare act = record {
  distinct = v.distinct;
  named = v.named;
  tabs_shown = v.tabs_shown ∙ bare_elements w.active_channel_sid none w.channels bare;
  instances_shown = v.instances_shown ∙ bare_elements w.active_channel_sid none w.channels bare;
  counted = v.counted;
  active_open = bare;
}

loose_moved :
    (sid n : Text) (w : Win) (ch : Channel)
    → IsLoose sid w
    → lookup n w.channels ≡ some ch
    → IsStrip (select n w)
loose_moved sid n w ch v h =
    select-IsStrip n w ch v.distinct v.named v.tabs_shown v.instances_shown v.counted h

-- The channel that is dropped was the active one, or it was not.
after_close-inactive :
    (sid : Text) (w : Win) → is_active w.active_channel_sid sid ≡ false → after_close sid w ≡ w
unfolding after_close
after_close-inactive sid w off = rw off

active_sid : (a : Option Text) (sid : Text) → is_active a sid ≡ true → a ≡ some sid
active_sid none sid h = cc
active_sid (some s) sid h = ground (arith, text_eq_iff sid s)

still_open :
    (sid : Text) (a : Option Text) (m : Dict Channel)
    → ActiveOpen a m
    → is_active a sid ≡ false
    → ActiveOpen a (delete sid m)
unfolding delete
still_open sid none [] open_now off = refl
still_open sid none (p ∷ m) open_now off = cc
still_open sid (some s) m (ch, h) off = (ch, unfold delete in rw (lookup-delete sid s m) (rw off h))

settled-IsStrip :
    (sid : Text) (w : Win)
    → IsLoose sid w
    → w.active_channel_sid ≡ some sid
    → IsStrip (after_close sid w)
settled-IsStrip sid w v act = elim (settled sid w v act) [
  | emptied bare e ↦ subst IsStrip (sym e) (loose_emptied sid w v bare act)
  | moved n ch last h e ↦ subst IsStrip (sym e) (loose_moved sid n w ch v h)
]

after_close-IsStrip :
    (sid : Text) (w : Win) (ch : Channel)
    → IsStrip w
    → lookup sid w.channels ≡ some ch
    → IsStrip (after_close sid (drop_channel sid w))
after_close-IsStrip sid w ch v h =
    let loose = drop_channel-IsLoose sid w ch v h in
    elim (Bool-cases (is_active w.active_channel_sid sid)) [
      | inl on ↦
          settled-IsStrip sid (drop_channel sid w) loose
            (unfold drop_channel in active_sid w.active_channel_sid sid on)
      | inr off ↦
          subst IsStrip
            (sym (after_close-inactive sid (drop_channel sid w) (unfold drop_channel in off)))
            (loose_kept sid (drop_channel sid w) loose (
              unfold drop_channel in
              still_open sid w.active_channel_sid w.channels v.active_open off))
    ]

-- Closing a tab keeps the strip consistent: its channel, its button and its terminal go together,
-- the count follows, and the selected tab is one that is still open, if any is.
pub close_channel_tab-IsStrip :
    (sid : Text) (o : Outbox) (w : Win) → IsStrip w → IsStrip (close_channel_tab sid (o, w)).1
unfolding close_channel_tab
close_channel_tab-IsStrip sid o w v = elim (Option-cases (lookup sid w.channels)) [
  | inl e ↦ rw (e, close_channel_tab) v
  | inr (ch, e) ↦ rw (e, close_channel_tab) (after_close-IsStrip sid w ch v e)
]

after_close-selects :
    (sid : Text) (w : Win)
    → IsLoose sid w
    → w.active_channel_sid ≡ some sid
    → (after_close sid w).active_channel_sid ≡ last_or none (keys w.channels)
after_close-selects sid w v act = elim (settled sid w v act) [
  | emptied bare e ↦ rw e (ap (λ (m : Dict Channel). last_or none (keys m)) (sym bare))
  | moved n ch last h e ↦ rw e (unfold select in sym last)
]

after_close_selection :
    (sid : Text) (w : Win) (ch : Channel)
    → IsStrip w
    → lookup sid w.channels ≡ some ch
    → (after_close sid (drop_channel sid w)).active_channel_sid ≡ (
        if is_active w.active_channel_sid sid
        then last_or none (keys (delete sid w.channels))
        else w.active_channel_sid)
after_close_selection sid w ch v h =
    let dropped = drop_channel sid w in
    elim (Bool-cases (is_active w.active_channel_sid sid)) [
      | inl on ↦ rw on (
          unfold drop_channel in
          after_close-selects sid dropped (drop_channel-IsLoose sid w ch v h)
            (active_sid w.active_channel_sid sid on))
      | inr off ↦ rw off (
          unfold drop_channel in
          ap (λ (k : Win). k.active_channel_sid) (after_close-inactive sid dropped off))
    ]

-- When the tab that goes was the selected one, the last of the remaining tabs is selected, wherever
-- the closed one stood; when it was not, the selection stays.
pub close_channel_tab-selects :
    (sid : Text) (o : Outbox) (w : Win) (ch : Channel)
    → IsStrip w
    → lookup sid w.channels ≡ some ch
    → (close_channel_tab sid (o, w)).1.active_channel_sid ≡ (
        if is_active w.active_channel_sid sid
        then last_or none (keys (delete sid w.channels))
        else w.active_channel_sid)
unfolding close_channel_tab
close_channel_tab-selects sid o w ch v h =
    rw (h, close_channel_tab) (after_close_selection sid w ch v h)
