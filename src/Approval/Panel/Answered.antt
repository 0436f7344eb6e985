-- ===== src/Approval/Panel/Answered.antt =====
-- The buttons and the switch of the review panel while the page waits for the server:
-- internal/webui/assets/static/js/approval.js and terminal-view.js.
use termcp.Base.{
  ℕ, zero, suc, ◌<◌, Bool, true, false, not, ◌&&◌, List, [], ◌∷◌, Text, if◌then◌else◌, arith,
}
use termcp.Approval.Panel.{
  Panel, Event, clicks_lock, closes_panel, refreshes, pushes, flips, loses_queue, reads_queue,
  reads_counts, sets_mode, answers_dialog, answers_on, answers_off, answers_decision, decides,
  flip_switch, queue_failed, queue_read, counts_read, off_confirmed, turned_on, turned_off,
  decision_answered, decide_approval, has_row, when_any, on_event, go_through,
}
use termcp.Approval.Panel.Waiting.{
  IsAnswered, keep_if-All, load-IsAnswered, open-IsAnswered, pushed-IsAnswered, mode-IsAnswered,
  flip-IsAnswered, confirmed-IsAnswered, off-IsAnswered, on-IsAnswered, decided-IsAnswered,
}

-- A step that waits for an answer takes place only when one is awaited.
when_any-IsAnswered :
    (n : ℕ) (f : Panel → Panel) (p : Panel)
    → IsAnswered p
    → (0 < n → IsAnswered (f p))
    → IsAnswered (when_any n f p)
when_any-IsAnswered zero f p v h = v
when_any-IsAnswered (suc n) f p v h = h (omega arith)

decide-IsAnswered :
    (b : Bool) (id : Text) (approve : Bool) (p : Panel)
    → IsAnswered p
    → IsAnswered (if b then decide_approval id approve p else p)
unfolding decide_approval
decide-IsAnswered true id approve p v = record {
  buttons = λ _. omega arith;
  switch = v.switch;
  lock = v.lock;
  opened = v.opened;
  wanted = v.wanted;
}
decide-IsAnswered false id approve p v = v

if_enabled-IsAnswered :
    (b : Bool) (p : Panel) → IsAnswered p → IsAnswered (if b then p else flip_switch p)
if_enabled-IsAnswered true p v = v
if_enabled-IsAnswered false p v = flip-IsAnswered p v

on_event-IsAnswered : (e : Event) (p : Panel) → IsAnswered p → IsAnswered (on_event e p)
unfolding on_event queue_failed queue_read counts_read
on_event-IsAnswered clicks_lock p v = open-IsAnswered (not p.is_open) p v
on_event-IsAnswered closes_panel p v = open-IsAnswered false p v
on_event-IsAnswered refreshes p v = load-IsAnswered p v
on_event-IsAnswered pushes p v = pushed-IsAnswered p v
on_event-IsAnswered flips p v = if_enabled-IsAnswered p.switch_disabled p v
on_event-IsAnswered loses_queue p v = when_any-IsAnswered p.loads queue_failed p v λ _. record {
  buttons = λ e. ground (arith, e);
  switch = v.switch;
  lock = v.lock;
  opened = v.opened;
  wanted = tt;
}
on_event-IsAnswered (reads_queue rs) p v = when_any-IsAnswered p.loads (queue_read rs) p v λ _.
    record {
      buttons = λ e. ground (arith, e);
      switch = v.switch;
      lock = v.lock;
      opened = v.opened;
      wanted = keep_if-All p.parent rs;
    }
on_event-IsAnswered (reads_counts rs) p v =
    when_any-IsAnswered p.count_reads (counts_read rs) p v λ _. record {
      buttons = v.buttons;
      switch = v.switch;
      lock = v.lock;
      opened = v.opened;
      wanted = v.wanted;
    }
on_event-IsAnswered (sets_mode on) p v = mode-IsAnswered on p v
on_event-IsAnswered (answers_dialog ok) p v =
    when_any-IsAnswered p.dialogs (off_confirmed ok) p v λ _. confirmed-IsAnswered ok p v
on_event-IsAnswered (answers_on ok) p v =
    when_any-IsAnswered p.turning_on (turned_on ok) p v λ _. on-IsAnswered ok p v
on_event-IsAnswered (answers_off ok) p v =
    when_any-IsAnswered p.turning_off (turned_off ok) p v λ _. off-IsAnswered ok p v
on_event-IsAnswered (answers_decision ok) p v =
    when_any-IsAnswered p.deciding (decision_answered ok) p v λ h. decided-IsAnswered ok p h v
on_event-IsAnswered (decides id approve) p v =
    decide-IsAnswered (has_row id p.shown && not p.buttons_disabled) id approve p v

-- Through any sequence of clicks, pushes, changes of the mode and answers of the server, in whatever
-- order they come, the buttons of the panel are disabled only while a decision or a read of the queue
-- waits, its switch only while a dialog is open or a change of the mode waits; the lock shows the mode,
-- and every row is a request of the panel's session that wants a decision.
pub go_through-IsAnswered :
    (es : List Event) (p : Panel) → IsAnswered p → IsAnswered (go_through es p)
unfolding go_through
go_through-IsAnswered [] p v = v
go_through-IsAnswered (e ∷ es) p v =
    go_through-IsAnswered es (on_event e p) (on_event-IsAnswered e p v)
