-- ===== src/Examples/Reviews.antt =====
-- A review panel with one request, and what the theorems say of it.
use termcp.Base.{arith, true, false, List, [], ◌∷◌, ◌≡◌, refl}
use termcp.Approval.Panel.{
  Panel, Event, nothing, clicks_lock, pushes, flips, reads_queue, sets_mode, answers_dialog,
  answers_decision, decides, go_through,
}
use termcp.Approval.Panel.Answered.{go_through-IsAnswered}
use termcp.Approval.Panel.Waiting.{IsAnswered}
use termcp.Approval.Panel.Refused.{denials, go_through-denied}
use termcp.Examples.Texts.{asked, page}

abbrev panel : Panel
panel = record {
  parent = asked.session_id;
  mode = true;
  is_open = false;
  shown = nothing;
  buttons_disabled = false;
  lock_on = true;
  expanded = false;
  switch_checked = true;
  switch_disabled = false;
  win_approval = true;
  loads = 0;
  count_reads = 0;
  deciding = 0;
  decided = [];
  dialogs = 0;
  turning_on = 0;
  turning_off = 0;
  surfaces = page;
  failure_toasts = 0;
}

panel-IsAnswered : IsAnswered panel
panel-IsAnswered = record {
  buttons = λ e. ground (arith, e);
  switch = λ e. ground (arith, e);
  lock = refl;
  opened = refl;
  wanted = tt;
}

abbrev day : List Event
day =
    pushes
    ∷ clicks_lock
    ∷ reads_queue (asked ∷ [])
    ∷ decides asked.id true
    ∷ pushes
    ∷ answers_decision true
    ∷ flips
    ∷ answers_dialog false
    ∷ reads_queue []
    ∷ sets_mode false
    ∷ []

go_through-IsAnswered_example : IsAnswered (go_through day panel)
go_through-IsAnswered_example = go_through-IsAnswered day panel panel-IsAnswered

go_through-denied_example :
    let q = go_through (flips ∷ denials true false) panel in
    q.mode ≡ true × q.switch_checked ≡ false × q.switch_disabled ≡ false
go_through-denied_example = go_through-denied panel false refl refl refl
