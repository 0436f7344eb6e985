-- ===== src/Sessions/Grid/Runs.antt =====
-- The deletion of several sessions, one after the other, and all that the grid reacts to: the buttons
-- of the session toolbar of internal/webui/assets/static/js/conn-form.js, and `applySessionsSnapshot`
-- of sessions.js.
use termcp.Base.{
  ℕ, suc, Bool, not, ◌&&◌, Option, none, some, List, [], ◌∷◌, ◌++◌, Text, Dict, codes, text_eq,
  delete, map, ◌-◌, keep_if, length, ◌==◌, if◌then◌else◌,
}
use termcp.Window.{Win}
use termcp.Sessions.{Session, Registry, close_shell_window, apply_sessions_snapshot}
use termcp.Sessions.Grid.{
  Label, t_plural, Kind, Job, Grid, has_id, is_selected, render_session_grid, check_tile,
  press_select_all, plain, with_reason, message, batch, dead, asking, deleting, ended,
}

-- `applySessionsSnapshot`, from a frame.
unfoldable pub apply_frame : List Session → Grid → Grid
unfolding render_session_grid
apply_frame ss g =
    let shown =
      render_session_grid ss none (record g { registry = record g.registry { snapshot = ss } }) in
    record shown { registry = apply_sessions_snapshot ss shown.registry }

-- `getShellWindowBySid` and `closeShellWindow`: the first window with that id goes.
unfoldable pub without_sid : Text → List Win → List Win
without_sid sid [] = []
without_sid sid (w ∷ ws) = if text_eq w.sid sid then ws else w ∷ without_sid sid ws

unfoldable pub window_with : Text → List Win → Option Win
window_with sid [] = none
window_with sid (w ∷ ws) = if text_eq w.sid sid then some w else window_with sid ws

unfoldable pub close_one : Option Win → Text → Registry → Registry
unfolding without_sid close_shell_window
close_one none sid r = r
close_one (some w) sid r = close_shell_window w (record r { windows = without_sid sid r.windows })

unfoldable pub close_by_sid : Text → Registry → Registry
unfolding window_with close_one
close_by_sid sid r = close_one (window_with sid r.windows) sid r

-- What a button is about.
unfoldable pub is_target : Kind → Dict Bool → Session → Bool
is_target batch m s = has_id s && is_selected m s.id
is_target dead m s = has_id s && not s.running

abbrev pub none_text : Kind → Label
none_text batch = plain (codes "toast.sessions.none")
none_text dead = plain (codes "toast.dead.none")

abbrev pub busy_text : Kind → ℕ → Label
busy_text batch n = t_plural (codes "banner.deleting.one") (codes "banner.deleting.other") n
busy_text dead n = t_plural (codes "banner.clearing.one") (codes "banner.clearing.other") n

abbrev pub done_text : Kind → ℕ → Label
done_text batch n =
    t_plural (codes "toast.session.deleted.one") (codes "toast.session.deleted.other") n
done_text dead n = t_plural (codes "toast.dead.cleared.one") (codes "toast.dead.cleared.other") n

abbrev pub failed_text : Kind → Text → Label
failed_text batch msg = with_reason (codes "toast.delete.failed") (message msg)
failed_text dead msg = with_reason (codes "toast.clear.failed") (message msg)

abbrev pub ask : Kind → List Text → Grid → Grid
ask k [] g = record g { toast = some (none_text k) }
ask k (sid ∷ sids) g = record g { jobs = g.jobs ++ asking k sid sids ∷ [] }

-- The button opens the dialog, or says that there is nothing to delete.
unfoldable pub press_delete : Kind → Grid → Grid
unfolding is_target
press_delete k g =
    ask k (map (λ s. s.id) (keep_if (is_target k g.registry.selected) g.registry.snapshot)) g

-- What the server says to a `DELETE`: done, or gone already; or an error.
pub data Answer : Type 0 where
  accepted : Answer
  refused : Text → Answer

abbrev pub send_delete : Text → Grid → Grid
send_delete sid g = record g { deletes = g.deletes ++ sid ∷ [] }

-- The first deletion is sent, unless the dialog is called off.
unfoldable pub confirm : Kind → Text → List Text → Bool → Grid → Job × Grid
confirm k sid sids ok g =
    if ok
    then (
      deleting k (suc (length sids)) sid sids,
      send_delete sid (record g { banner = some (busy_text k (suc (length sids))) }),
    )
    else (ended, g)

unfoldable pub forget_deleted : Text → Grid → Grid
unfolding close_by_sid
forget_deleted sid g =
    let r = close_by_sid sid g.registry in
    record g { registry = record r { selected = delete sid r.selected } }

-- The rest of the chain: the next session, or the end.
unfoldable pub go_on : Kind → ℕ → List Text → Grid → Job × Grid
unfolding render_session_grid
go_on k n [] g = (
  ended,
  render_session_grid g.registry.snapshot none
      (record g { banner = none; toast = some (done_text k n) }),
)
go_on k n (sid ∷ sids) g = (deleting k n sid sids, send_delete sid g)

unfoldable pub answered : Kind → ℕ → Text → List Text → Answer → Grid → Job × Grid
unfolding forget_deleted go_on render_session_grid
answered k n sid sids accepted g = go_on k n sids (forget_deleted sid g)
answered k n sid sids (refused msg) g = (
  ended,
  render_session_grid g.registry.snapshot none (record g { banner = some (failed_text k msg) }),
)

-- The user or the server goes on with a run; what does not fit its state does not react.
pub data Turn : Type 0 where
  confirms : Bool → Turn
  answers : Answer → Turn

unfoldable pub turn : Turn → Job → Grid → Job × Grid
unfolding confirm answered
turn (confirms ok) (asking k sid sids) g = confirm k sid sids ok g
turn (answers a) (deleting k n sid sids) g = answered k n sid sids a g
turn t j g = (j, g)

unfoldable pub put_job : ℕ → Job → List Job → List Job
put_job i j [] = []
put_job i j (x ∷ xs) = if i == 0 then j ∷ xs else x ∷ put_job (i - 1) j xs

unfoldable pub job_at : ℕ → List Job → Job
job_at i [] = ended
job_at i (x ∷ xs) = if i == 0 then x else job_at (i - 1) xs

pub data Event : Type 0 where
  frame : List Session → Event
  checks : Text → Bool → Event
  selects_all : Event
  presses : Kind → Event
  turns : ℕ → Turn → Event

abbrev pub stored : ℕ → Job × Grid → Grid
stored i (j, g) = record g { jobs = put_job i j g.jobs }

unfoldable pub react : Event → Grid → Grid
unfolding apply_frame check_tile press_select_all press_delete turn put_job job_at
react (frame ss) g = apply_frame ss g
react (checks sid on) g = check_tile sid on g
react selects_all g = press_select_all g
react (presses k) g = press_delete k g
react (turns i t) g = stored i (turn t (job_at i g.jobs) g)

unfoldable pub react_all : List Event → Grid → Grid
unfolding react
react_all [] g = g
react_all (e ∷ es) g = react_all es (react e g)
