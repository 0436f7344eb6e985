-- ===== src/Approval/Panel/Waiting.antt =====
-- The buttons and the switch of the review panel, after each operation:
-- internal/webui/assets/static/js/approval.js and terminal-view.js.
use termcp.Base.{
  suc, ◌+◌, ◌<◌, Bool, true, false, not, ◌&&◌, List, [], ◌∷◌, Text, text_eq, All, is_empty,
  if◌then◌else◌, ◌≡◌, refl, arith, Bool-cases, inl, inr,
}
use termcp.Approval.{Request, queue_of, is_pending}
use termcp.Approval.Panel.{
  Panel, Shown, nothing, failed, rows, set_review_sheet_open, load_review_queue, approval_pushed,
  flip_switch, apply_review_toggle, apply_approval_mode, paint_review_labels, off_confirmed,
  turned_on, turned_off, decision_answered,
}

-- The rows are requests of the session that want a decision.
abbrev pub Wanted : Text → Shown → Type 0
Wanted sid nothing = Unit
Wanted sid failed = Unit
Wanted sid (rows rs) = All (λ r. (text_eq r.session_id sid && is_pending r) ≡ true) rs

-- Buttons are disabled only while a decision or a read of the queue waits, the switch only while a
-- dialog is open or a change of the mode waits; the lock shows the mode.
pub record IsAnswered (p : Panel) : Type 0 where
  pub buttons : p.buttons_disabled ≡ true → 0 < p.deciding + p.loads
  pub switch : p.switch_disabled ≡ true → 0 < p.dialogs + (p.turning_on + p.turning_off)
  pub lock : p.lock_on ≡ p.mode
  pub opened : p.expanded ≡ p.is_open
  pub wanted : Wanted p.parent p.shown

pub keep_if-All :
    (sid : Text) (rs : List Request)
    → All (λ r. (text_eq r.session_id sid && is_pending r) ≡ true) (queue_of sid rs)
unfolding queue_of
keep_if-All sid [] = tt
keep_if-All sid (r ∷ rs) = elim (Bool-cases (text_eq r.session_id sid && is_pending r)) [
  | inl e ↦ rw e (e, keep_if-All sid rs)
  | inr e ↦ rw e (keep_if-All sid rs)
]

pub load-IsAnswered : (p : Panel) → IsAnswered p → IsAnswered (load_review_queue p)
unfolding load_review_queue
load-IsAnswered p v = record {
  buttons = λ _. omega arith;
  switch = v.switch;
  lock = v.lock;
  opened = v.opened;
  wanted = v.wanted;
}

pub open-IsAnswered : (b : Bool) (p : Panel) → IsAnswered p → IsAnswered (set_review_sheet_open b p)
unfolding set_review_sheet_open
open-IsAnswered true p v = load-IsAnswered _ (record {
  buttons = v.buttons;
  switch = v.switch;
  lock = v.lock;
  opened = refl;
  wanted = v.wanted;
})
open-IsAnswered false p v = record {
  buttons = v.buttons;
  switch = v.switch;
  lock = v.lock;
  opened = refl;
  wanted = v.wanted;
}

if_open-IsAnswered :
    (b : Bool) (p : Panel) → IsAnswered p → IsAnswered (if b then load_review_queue p else p)
if_open-IsAnswered true p v = load-IsAnswered p v
if_open-IsAnswered false p v = v

pub pushed-IsAnswered : (p : Panel) → IsAnswered p → IsAnswered (approval_pushed p)
unfolding approval_pushed
pushed-IsAnswered p v =
    if_open-IsAnswered p.is_open (record p { count_reads = suc p.count_reads })
      (record {
        buttons = v.buttons;
        switch = v.switch;
        lock = v.lock;
        opened = v.opened;
        wanted = v.wanted;
      })

pub mode-IsAnswered : (on : Bool) (p : Panel) → IsAnswered p → IsAnswered (apply_approval_mode on p)
unfolding apply_approval_mode paint_review_labels
mode-IsAnswered on p v = if_open-IsAnswered p.is_open _ (record {
  buttons = v.buttons;
  switch = λ e. ground (arith, e);
  lock = refl;
  opened = v.opened;
  wanted = v.wanted;
})

toggle_as-IsAnswered :
    (a b : Bool) (p : Panel)
    → IsAnswered p
    → IsAnswered (
        if a
        then p
        else if b
        then record p { switch_disabled = true; dialogs = suc p.dialogs }
        else record p { switch_disabled = true; turning_on = suc p.turning_on })
toggle_as-IsAnswered true b p v = v
toggle_as-IsAnswered false true p v = record {
  buttons = v.buttons;
  switch = λ _. omega arith;
  lock = v.lock;
  opened = v.opened;
  wanted = v.wanted;
}
toggle_as-IsAnswered false false p v = record {
  buttons = v.buttons;
  switch = λ _. omega arith;
  lock = v.lock;
  opened = v.opened;
  wanted = v.wanted;
}

toggle-IsAnswered : (p : Panel) → IsAnswered p → IsAnswered (apply_review_toggle p)
unfolding apply_review_toggle
toggle-IsAnswered p v = toggle_as-IsAnswered (is_empty p.parent) p.mode p v

pub flip-IsAnswered : (p : Panel) → IsAnswered p → IsAnswered (flip_switch p)
unfolding flip_switch
flip-IsAnswered p v =
    toggle-IsAnswered (record p { switch_checked = not p.switch_checked })
      (record {
        buttons = v.buttons;
        switch = v.switch;
        lock = v.lock;
        opened = v.opened;
        wanted = v.wanted;
      })

pub confirmed-IsAnswered : (ok : Bool) (p : Panel) → IsAnswered p → IsAnswered (off_confirmed ok p)
unfolding off_confirmed
confirmed-IsAnswered true p v = record {
  buttons = v.buttons;
  switch = λ _. omega arith;
  lock = v.lock;
  opened = v.opened;
  wanted = v.wanted;
}
confirmed-IsAnswered false p v = record {
  buttons = v.buttons;
  switch = λ e. ground (arith, e);
  lock = v.lock;
  opened = v.opened;
  wanted = v.wanted;
}

pub off-IsAnswered : (ok : Bool) (p : Panel) → IsAnswered p → IsAnswered (turned_off ok p)
unfolding turned_off
off-IsAnswered true p v = record {
  buttons = v.buttons;
  switch = λ e. ground (arith, e);
  lock = v.lock;
  opened = v.opened;
  wanted = v.wanted;
}
off-IsAnswered false p v = record {
  buttons = v.buttons;
  switch = λ e. ground (arith, e);
  lock = v.lock;
  opened = v.opened;
  wanted = v.wanted;
}

pub on-IsAnswered : (ok : Bool) (p : Panel) → IsAnswered p → IsAnswered (turned_on ok p)
unfolding turned_on
on-IsAnswered true p v = record {
  buttons = v.buttons;
  switch = λ e. ground (arith, e);
  lock = v.lock;
  opened = v.opened;
  wanted = v.wanted;
}
on-IsAnswered false p v = record {
  buttons = v.buttons;
  switch = λ e. ground (arith, e);
  lock = v.lock;
  opened = v.opened;
  wanted = v.wanted;
}

pub decided-IsAnswered :
    (ok : Bool) (p : Panel) → 0 < p.deciding → IsAnswered p → IsAnswered (decision_answered ok p)
unfolding decision_answered load_review_queue
decided-IsAnswered true p h v = record {
  buttons = λ _. omega arith;
  switch = v.switch;
  lock = v.lock;
  opened = v.opened;
  wanted = v.wanted;
}
decided-IsAnswered false p h v = record {
  buttons = λ _. omega arith;
  switch = v.switch;
  lock = v.lock;
  opened = v.opened;
  wanted = v.wanted;
}
