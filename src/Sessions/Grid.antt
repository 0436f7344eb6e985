-- ===== src/Sessions/Grid.antt =====
-- The grid of sessions, the selection in it and the deletion of several sessions: `renderSessionGrid`
-- and `updateSessionBatchBar` of internal/webui/assets/static/js/sessions.js, and the buttons of the
-- session toolbar in conn-form.js. A text of the catalog is named by its key and what it counts. The
-- port forwards of a tile, and its rename and copy controls, are left out.
pub mod Runs
pub mod Listed
pub mod Marked
pub mod Deletion
use termcp.Base.{
  ℕ, suc, Bool, true, false, not, ◌&&◌, ◌||◌, Option, none, some, List, [], ◌∷◌, ◌++◌, Text, Dict,
  codes, text_eq, lookup, insert, delete, map, ◌-◌, restrict, is_empty, is_some, any, keys, keep_if,
  length, leb, ltb, trim, strip_prefix, ◌==◌, if◌then◌else◌,
}
use termcp.Util.Names.{SessionRef, display_session_short, session_prefix}
use termcp.Window.{Win}
use termcp.Sessions.{Session, Registry, close_shell_window, apply_sessions_snapshot}
use termcp.Approval.{count_of}

-- `t(key)`, `t(key, {count})` or `tCount(one, other, {count})`, a text with another in it, or a text of
-- its own.
pub data Label : Type 0 where
  plain : Text → Label
  counted : Text → ℕ → Label
  with_reason : Text → Label → Label
  message : Text → Label

abbrev pub t_plural : Text → Text → ℕ → Label
t_plural one other n = counted (if n == 1 then one else other) n

pub record SessTile : Type 0 where
  pub sid : Text
  pub archived : Bool
  -- the check box and the class `batch-selected`
  pub selected : Bool
  pub notified : Bool
  pub entry_line : Text
  pub status : Label
  -- the approval lock, with its state; only a live session has one
  pub lock : Option Bool
  -- the number on the review badge
  pub badge : Option ℕ

pub record BatchBar : Type 0 where
  pub all_checked : Bool
  pub sel_all_title : Text
  pub sel_all_disabled : Bool
  pub shown_count : Option ℕ
  pub del_disabled : Bool
  pub del_title : Label

-- The button that deletes the selected sessions, or the one that deletes the dead.
pub data Kind : Type 0 where
  batch dead : Kind

-- A run of deletions: the dialog is open, or the server is asked to delete the first of those left.
pub data Job : Type 0 where
  asking : Kind → Text → List Text → Job
  deleting : Kind → ℕ → Text → List Text → Job
  ended : Job

pub record Grid : Type 0 where
  pub registry : Registry
  -- `_approvalCounts`
  pub counts : Dict ℕ
  pub tiles : List SessTile
  -- the grid says that there is no session
  pub empty_note : Bool
  pub bar : BatchBar
  pub banner : Option Label
  pub toast : Option Label
  pub jobs : List Job
  -- the `DELETE` requests sent, oldest first
  pub deletes : List Text

abbrev pub has_id : Session → Bool
has_id s = not (is_empty s.id)

abbrev pub is_selected : Dict Bool → Text → Bool
is_selected selected sid = is_some (lookup sid selected)

unfoldable pub batch_bar : List Session → Dict Bool → BatchBar
batch_bar sessions selected =
    let count = length selected in
    let total = length (keep_if has_id sessions) in
    let all = ltb 0 total && leb total count in
    record {
      all_checked = all;
      sel_all_title =
          if all then codes "section.batch.clearSelection" else codes "section.batch.selectAll";
      sel_all_disabled = total == 0;
      shown_count = if ltb 0 count then some count else none;
      del_disabled = count == 0;
      del_title =
          if ltb 0 count
          then t_plural (codes "batch.del.title.one") (codes "batch.del.title.other") count
          else plain (codes "section.batch.deleteSelected");
    }

unfoldable pub update_session_batch_bar : Grid → Grid
unfolding batch_bar
update_session_batch_bar g = record g { bar = batch_bar g.registry.snapshot g.registry.selected }

-- A name of its own, or the short form of the id.
unfoldable pub entry_line_of : Session → Text
entry_line_of s =
    let nm = trim s.name in
    if is_empty nm || is_some (strip_prefix session_prefix nm)
    then display_session_short (record { id = s.id; name = s.name })
    else nm

-- `reasonLabel`: the known reasons have texts of the catalog.
unfoldable pub reason_label : Text → Label
reason_label r =
    if is_empty r
    then message []
    else if any (text_eq r)
        (codes "explicit" ∷ codes "crash" ∷ codes "exited" ∷ codes "shutdown" ∷ [])
    then plain (codes "reason." ++ r)
    else message r

unfoldable pub review_badge : Text → Dict ℕ → Option ℕ
review_badge sid counts = if count_of sid counts == 0 then none else some (count_of sid counts)

unfoldable pub tile_of : Grid → Session → SessTile
unfolding entry_line_of reason_label review_badge
tile_of g s = record {
  sid = s.id;
  archived = not s.running;
  selected = is_selected g.registry.selected s.id;
  notified = not (is_empty s.id) && is_some (lookup s.id g.registry.highlights);
  entry_line = entry_line_of s;
  status =
      if s.running
      then plain (codes "session.status.running")
      else with_reason (codes "session.status.dead") (reason_label s.reason);
  lock = if s.running then some s.approval_mode else none;
  badge = review_badge s.id g.counts;
}

unfoldable pub tiles_of : Grid → List Session → List SessTile
unfolding tile_of
tiles_of g [] = []
tiles_of g (s ∷ ss) = tile_of g s ∷ tiles_of g ss

abbrev pub lists : List Session → Text → Bool
lists sessions sid = any (λ s. text_eq s.id sid) sessions

abbrev pub with_selected : Dict Bool → Grid → Grid
with_selected selected g = record g { registry = record g.registry { selected = selected } }

-- The ids that are no longer listed leave the selection.
abbrev pub keep_live : List Session → Dict Bool → Dict Bool
keep_live sessions m = restrict (lists sessions) m

unfoldable pub render_session_grid : List Session → Option Label → Grid → Grid
unfolding tiles_of update_session_batch_bar
render_session_grid sessions banner g =
    if is_empty sessions
    then update_session_batch_bar
        (with_selected [] (record g { banner = banner; tiles = []; empty_note = true }))
    else update_session_batch_bar (
        with_selected (keep_live sessions g.registry.selected)
          (record g { banner = banner; tiles = tiles_of g sessions; empty_note = false }))

unfoldable pub set_checked : Text → Bool → List SessTile → List SessTile
set_checked sid on [] = []
set_checked sid on (c ∷ cs) =
    if text_eq c.sid sid then record c { selected = on } ∷ cs else c ∷ set_checked sid on cs

unfoldable pub set_selected : Text → Bool → Dict Bool → Dict Bool
set_selected sid on m = if on then insert sid true m else delete sid m

-- The check box of a tile: there has to be one.
unfoldable pub check_tile : Text → Bool → Grid → Grid
unfolding set_checked set_selected update_session_batch_bar
check_tile sid on g =
    if any (λ c. text_eq c.sid sid) g.tiles
    then update_session_batch_bar (
        with_selected (set_selected sid on g.registry.selected)
          (record g { tiles = set_checked sid on g.tiles }))
    else g

unfoldable pub select_each : Bool → List Session → Dict Bool → Dict Bool
unfolding set_selected
select_each on [] m = m
select_each on (s ∷ ss) m = select_each on ss (if has_id s then set_selected s.id on m else m)

abbrev pub all_in : Dict Bool → List Session → Bool
all_in m [] = true
all_in m (s ∷ ss) = (not (has_id s) || is_selected m s.id) && all_in m ss

unfoldable pub press_select_all : Grid → Grid
unfolding select_each render_session_grid
press_select_all g =
    let ss = g.registry.snapshot in
    let m = g.registry.selected in
    let all = any has_id ss && all_in m ss in
    render_session_grid ss none (with_selected (select_each (not all) ss m) g)
