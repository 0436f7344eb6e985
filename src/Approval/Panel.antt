-- ===== src/Approval/Panel.antt =====
-- The review panel of one window: `loadReviewQueue` and `decideApproval` of
-- internal/webui/assets/static/js/approval.js, `setReviewSheetOpen`, `applyReviewToggle`,
-- `paintReviewLabels` and `applyApprovalMode` of terminal-view.js. The requests to the server that wait
-- for an answer are counted; an answer that nothing waits for does not come.
pub mod Waiting
pub mod Answered
pub mod Refused
use termcp.Base.{
  ℕ, zero, suc, ◌+◌, ◌-◌, Bool, true, false, not, ◌&&◌, ◌||◌, List, [], ◌∷◌, ◌++◌, Text, text_eq,
  any, is_empty, ◌==◌, if◌then◌else◌,
}
use termcp.Approval.{
  Request, Surfaces, queue_of, keep_approval_counts, apply_approval_counts, clear_approval_count,
}

-- What the list of the panel holds.
pub data Shown : Type 0 where
  nothing failed : Shown
  rows : List Request → Shown

pub record Panel : Type 0 where
  -- `win._parentSid` and `win._approvalMode`
  pub parent : Text
  pub mode : Bool
  -- the panel is open; it lists; the buttons of its rows are disabled
  pub is_open : Bool
  pub shown : Shown
  pub buttons_disabled : Bool
  -- the lock of the title bar, the switch of the panel and the class `win-approval`
  pub lock_on : Bool
  pub expanded : Bool
  pub switch_checked : Bool
  pub switch_disabled : Bool
  pub win_approval : Bool
  -- the reads of the queue, and of the counts alone, that wait
  pub loads : ℕ
  pub count_reads : ℕ
  -- the decisions that wait, and all that were sent
  pub deciding : ℕ
  pub decided : List (Text × Bool)
  -- the dialogs that ask whether to turn review off, and the requests to turn it on or off that wait
  pub dialogs : ℕ
  pub turning_on : ℕ
  pub turning_off : ℕ
  pub surfaces : Surfaces
  pub failure_toasts : ℕ

unfoldable pub load_review_queue : Panel → Panel
load_review_queue p = record p { loads = suc p.loads }

-- An empty queue is shown as the sentence that says so.
unfoldable pub queue_read : List Request → Panel → Panel
queue_read rs p = record p {
  loads = p.loads - 1;
  shown = rows (queue_of p.parent rs);
  buttons_disabled = false;
  surfaces = keep_approval_counts rs p.surfaces;
}

unfoldable pub queue_failed : Panel → Panel
queue_failed p = record p { loads = p.loads - 1; shown = failed; buttons_disabled = false }

unfoldable pub counts_read : List Request → Panel → Panel
counts_read rs p = record p {
  count_reads = p.count_reads - 1;
  surfaces = keep_approval_counts rs p.surfaces;
}

abbrev pub has_row : Text → Shown → Bool
has_row id nothing = false
has_row id failed = false
has_row id (rows rs) = any (λ r. text_eq r.id id) rs

-- A click on a button of a row.
unfoldable pub decide_approval : Text → Bool → Panel → Panel
decide_approval id approve p = record p {
  buttons_disabled = true;
  deciding = suc p.deciding;
  decided = p.decided ++ (id, approve) ∷ [];
}

unfoldable pub decision_answered : Bool → Panel → Panel
unfolding load_review_queue
decision_answered ok p =
    let q = record p { deciding = p.deciding - 1 } in
    load_review_queue (if ok then q else record q { failure_toasts = suc q.failure_toasts })

unfoldable pub set_review_sheet_open : Bool → Panel → Panel
unfolding load_review_queue
set_review_sheet_open to_open p =
    let q = record p { is_open = to_open; expanded = to_open } in
    if to_open then load_review_queue q else q

unfoldable pub paint_review_labels : Panel → Panel
paint_review_labels p = record p {
  lock_on = p.mode;
  switch_checked = p.mode;
  switch_disabled = false;
}

unfoldable pub apply_approval_mode : Bool → Panel → Panel
unfolding paint_review_labels load_review_queue
apply_approval_mode on p =
    let q = paint_review_labels (record p { mode = on }) in
    let r = record q { surfaces = apply_approval_counts q.surfaces; win_approval = on } in
    if r.is_open then load_review_queue r else r

-- The switch has been moved by the click when its handler runs.
unfoldable pub apply_review_toggle : Panel → Panel
apply_review_toggle p =
    if is_empty p.parent
    then p
    else if p.mode
    then record p { switch_disabled = true; dialogs = suc p.dialogs }
    else record p { switch_disabled = true; turning_on = suc p.turning_on }

unfoldable pub flip_switch : Panel → Panel
unfolding apply_review_toggle
flip_switch p = apply_review_toggle (record p { switch_checked = not p.switch_checked })

-- The dialog is confirmed or called off.
unfoldable pub off_confirmed : Bool → Panel → Panel
off_confirmed ok p =
    let q = record p { dialogs = p.dialogs - 1 } in
    if ok
    then record q { turning_off = suc q.turning_off }
    else record q { switch_disabled = false }

unfoldable pub turned_off : Bool → Panel → Panel
turned_off ok p =
    let q = record p { turning_off = p.turning_off - 1; switch_disabled = false } in
    if ok
    then record q { surfaces = clear_approval_count q.parent q.surfaces }
    else record q { failure_toasts = suc q.failure_toasts }

unfoldable pub turned_on : Bool → Panel → Panel
turned_on ok p =
    let q = record p { turning_on = p.turning_on - 1; switch_disabled = false } in
    if ok then q else record q { failure_toasts = suc q.failure_toasts }

-- What `onApprovalEvent` does to the panel and the counts.
unfoldable pub approval_pushed : Panel → Panel
unfolding load_review_queue
approval_pushed p =
    let q = record p { count_reads = suc p.count_reads } in
    if q.is_open then load_review_queue q else q

pub data Event : Type 0 where
  clicks_lock closes_panel refreshes pushes flips loses_queue : Event
  reads_queue reads_counts : List Request → Event
  sets_mode answers_dialog answers_on answers_off answers_decision : Bool → Event
  decides : Text → Bool → Event

abbrev pub when_any : ℕ → (Panel → Panel) → Panel → Panel
when_any zero f p = p
when_any (suc n) f p = f p

unfoldable pub on_event : Event → Panel → Panel
unfolding set_review_sheet_open load_review_queue approval_pushed flip_switch queue_failed
    queue_read counts_read apply_approval_mode off_confirmed turned_on turned_off decision_answered
    decide_approval
on_event clicks_lock p = set_review_sheet_open (not p.is_open) p
on_event closes_panel p = set_review_sheet_open false p
on_event refreshes p = load_review_queue p
on_event pushes p = approval_pushed p
on_event flips p = if p.switch_disabled then p else flip_switch p
on_event loses_queue p = when_any p.loads queue_failed p
on_event (reads_queue rs) p = when_any p.loads (queue_read rs) p
on_event (reads_counts rs) p = when_any p.count_reads (counts_read rs) p
on_event (sets_mode on) p = apply_approval_mode on p
on_event (answers_dialog ok) p = when_any p.dialogs (off_confirmed ok) p
on_event (answers_on ok) p = when_any p.turning_on (turned_on ok) p
on_event (answers_off ok) p = when_any p.turning_off (turned_off ok) p
on_event (answers_decision ok) p = when_any p.deciding (decision_answered ok) p
on_event (decides id approve) p =
    if has_row id p.shown && not p.buttons_disabled then decide_approval id approve p else p

unfoldable pub go_through : List Event → Panel → Panel
unfolding on_event
go_through [] p = p
go_through (e ∷ es) p = go_through es (on_event e p)
