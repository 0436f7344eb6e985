-- ===== src/Sessions.antt =====
-- The list of sessions that the server sends, and the windows that follow it:
-- `applySessionsSnapshot`, `pruneDeadSessionUIState` and `releaseSessionUIState` of
-- internal/webui/assets/static/js/sessions.js with `closeShellWindow` of ui-socket.js. The session
-- grid, the forwards and the tab lists that are asked for afterwards are left out.
pub mod Snapshot
pub mod Grid
use termcp.Base.{
  ℕ, Bool, true, false, not, ◌||◌, Option, none, some, List, [], ◌∷◌, ◌++◌, Text, Dict, text_eq,
  lookup, insert, delete, restrict, is_empty, is_some, any, keys, ◌==◌, if◌then◌else◌,
}
use termcp.Window.{Win, Channel}
use termcp.Window.Outbox.{Outbox, send_terminal_watch}
use termcp.Window.Channels.{lock_window_readonly, unwatch_all}

pub record Session : Type 0 where
  pub id : Text
  -- `status === 'running'`
  pub running : Bool
  pub approval_need : ℕ
  pub approval_mode : Bool
  pub name : Text
  -- why it ended
  pub reason : Text

pub record Registry : Type 0 where
  -- `allShellWins()`
  pub windows : List Win
  pub outbox : Outbox
  -- `_uiNotifHighlights`, `_selectedSessionIds` and `_shellLastActive`
  pub highlights : Dict Bool
  pub selected : Dict Bool
  pub last_active : Dict Text
  pub snapshot : List Session

-- The later of two entries for one id stands.
unfoldable pub session_by_id : List Session → Dict Session → Dict Session
session_by_id [] m = m
session_by_id (s ∷ ss) m = session_by_id ss (if is_empty s.id then m else insert s.id s m)

unfoldable pub forget_watch : Text → Outbox → Outbox
forget_watch sid o = record o { pending = delete sid o.pending }

unfoldable pub release_session_ui_state : Text → Registry → Registry
unfolding forget_watch
release_session_ui_state sid r = if is_empty sid then r else record r {
  highlights = delete sid r.highlights;
  selected = delete sid r.selected;
  last_active = delete sid r.last_active;
  outbox = forget_watch sid r.outbox;
}

-- `_shellLastActive[win._parentSid] = win._activeChannelSid`.
unfoldable pub remember_active : Win → Dict Text → Dict Text
remember_active w m = if is_empty w.parent_sid then m else elim w.active_channel_sid [
  | none ↦ m
  | some sid ↦ (if is_empty sid then m else insert w.parent_sid sid m)
]

-- The window's own id is unsubscribed once, with the channels or after them.
unfoldable pub unwatch_window : Win → Outbox → Outbox
unfolding unwatch_all send_terminal_watch forget_watch
unwatch_window w o =
    let told = unwatch_all w.channels o in
    if is_empty w.sid
    then told
    else forget_watch w.sid (
        if any (λ k. text_eq k w.sid) (keys w.channels)
        then told
        else send_terminal_watch w.sid false told)

-- What `closeShellWindow` does besides taking the window off the page.
unfoldable pub close_shell_window : Win → Registry → Registry
unfolding remember_active unwatch_window
close_shell_window w r = record r {
  last_active = remember_active w r.last_active;
  outbox = unwatch_window w r.outbox;
}

abbrev pub need_of : ℕ → ℕ
need_of n = if n == 0 then 1 else n

abbrev pub reviewed : Session → Win → Win
reviewed s w = record w { approval_need = need_of s.approval_need; approval_mode = s.approval_mode }

abbrev pub keep_window : Win → Registry → Registry
keep_window w r = record r { windows = r.windows ++ w ∷ [] }

unfoldable pub lock_if_dead : Session → Outbox × Win → Outbox × Win
unfolding lock_window_readonly
lock_if_dead s ow = if s.running then ow else lock_window_readonly ow

unfoldable pub reconcile_found : Option Session → Win → Registry → Registry
unfolding release_session_ui_state close_shell_window lock_if_dead
reconcile_found none w r = close_shell_window w (release_session_ui_state w.parent_sid r)
reconcile_found (some s) w r =
    let (o, u) = lock_if_dead s (r.outbox, w) in
    keep_window (reviewed s u) (record r { outbox = o })

-- `!w._parentSid || w._placeholder`.
abbrev pub is_loose : Win → Bool
is_loose w = is_empty w.parent_sid || w.placeholder

unfoldable pub reconcile_one : Dict Session → Win → Registry → Registry
unfolding reconcile_found
reconcile_one m w r =
    if is_loose w then keep_window w r else reconcile_found (lookup w.parent_sid m) w r

unfoldable pub reconcile : Dict Session → List Win → Registry → Registry
unfolding reconcile_one
reconcile m [] r = r
reconcile m (w ∷ ws) r = reconcile m ws (reconcile_one m w r)

abbrev pub is_live : Dict Session → Text → Bool
is_live m k = is_some (lookup k m)

unfoldable pub prune_dead_session_ui_state : Dict Session → Registry → Registry
prune_dead_session_ui_state m r = record r {
  highlights = restrict (is_live m) r.highlights;
  selected = restrict (is_live m) r.selected;
  last_active = restrict (is_live m) r.last_active;
  outbox = record r.outbox { pending = restrict (is_live m) r.outbox.pending };
}

unfoldable pub apply_sessions_snapshot : List Session → Registry → Registry
unfolding session_by_id reconcile prune_dead_session_ui_state
apply_sessions_snapshot sessions r =
    let m = session_by_id sessions [] in
    prune_dead_session_ui_state m
      (reconcile m r.windows (record r { windows = []; snapshot = sessions }))
