-- ===== src/Launch.antt =====
-- Opening, focusing and closing windows: the state that the entry points of terminal-view.js,
-- shell-windows.js and ui-socket.js (internal/webui/assets/static/js) share. A window opened by a
-- click stands where the model places one opened without a click; the markup of a window and the
-- wiring of its buttons are left out. A reply that arrives for a window that has been closed
-- meanwhile finds no window.
pub mod Focus
pub mod Opening
pub mod Shells
pub mod Starting
pub mod Life
pub mod Identity
pub mod Tracked
pub mod Opened
pub mod Answered
pub mod Settled
pub mod Drained
pub mod Failed
use termcp.Base.{
  ℕ, suc, Bool, true, false, ◌&&◌, ◌||◌, Option, none, some, List, [], ◌∷◌, ◌++◌, Text, Dict,
  text_eq, is_empty, if◌then◌else◌, ℤ, pos,
}
use termcp.Window.{Win, Rect, Css, unset}
use termcp.Window.Outbox.{Outbox}
use termcp.Layout.{
  Page, no_rect, change_window, drop_node, bring_to_front, tile_window, apply_pane_grid,
}
use termcp.Layout.Actions.{
  Viewport, apply_window_viewport_mode, position_window, show_all_windows, window_of,
}
use termcp.Sessions.{Session, need_of, reviewed, remember_active, unwatch_window}

-- A `POST /api/sessions` whose answer has not come, with the window that waits for it.
pub record StartRequest : Type 0 where
  pub window : ℕ
  pub ssh_config : Text
  pub name : Text
  pub command : Text
  pub args : List Text
  pub mode : Text

-- A `POST /api/sessions/{id}/shells`.
pub record ChannelRequest : Type 0 where
  pub session : Text
  pub mode : Text
  pub command : Option Text
  pub args : List Text

pub record Windows : Type 0 where
  -- `typeof Terminal !== 'undefined'`
  pub has_terminal : Bool
  pub page : Page
  -- its `window_count` is `shellWindowCount`
  pub viewport : Viewport
  pub outbox : Outbox
  pub snapshot : List Session
  -- `_shellLastActive`
  pub last_active : Dict Text
  pub requests : List StartRequest
  -- the windows whose request was aborted
  pub aborted : List ℕ
  -- the windows that wait for the list of their shells, and whether they show a dead session
  pub shell_reads : List (ℕ × Bool)
  pub channel_requests : List (ℕ × ChannelRequest)
  -- the alerts and the failure toasts shown
  pub alerts : ℕ
  pub toasts : ℕ
  -- the starts whose promise was rejected, by their connections: the caller, the form or the tile of
  -- the connection, reports them
  pub rejected : List Text

abbrev pub all_shell_wins : Page → List Win
all_shell_wins p = p.floating ++ p.panes

-- The first window with that `_sid`.
unfoldable pub window_by_sid : Text → List Win → Option ℕ
window_by_sid sid [] = none
window_by_sid sid (w ∷ ws) = if text_eq w.sid sid then some w.node else window_by_sid sid ws

unfoldable pub get_shell_window_by_sid : Text → Page → Option ℕ
unfolding window_by_sid
get_shell_window_by_sid sid p = window_by_sid sid (all_shell_wins p)

unfoldable pub pending_for : Text → List Win → Option ℕ
pending_for conn [] = none
pending_for conn (w ∷ ws) =
    if w.placeholder && text_eq w.pending_conn_name conn then some w.node else pending_for conn ws

unfoldable pub get_pending_shell_window_for_conn : Text → Page → Option ℕ
unfolding pending_for
get_pending_shell_window_for_conn conn p =
    if is_empty conn then none else pending_for conn (all_shell_wins p)

-- A window element as it is made.
unfoldable pub new_win : ℕ → Win
new_win n = record {
  node = n;
  sid = [];
  parent_sid = [];
  placeholder = false;
  conn_name = [];
  pending_conn_name = [];
  connect_abort = false;
  channels_made = false;
  channels = [];
  active_channel_sid = none;
  channel_count = 0;
  channel_seq = 0;
  primary_shell_id = none;
  tabs = [];
  instances = [];
  empty_shown = false;
  body_hidden = false;
  stream_done = false;
  shell_user_input_ready = false;
  read_only = false;
  locked_readonly = false;
  input_closed = false;
  dead_badge_added = false;
  approval_mode = false;
  approval_need = 0;
  notified = false;
  minimized = false;
  collapsed = false;
  hidden = false;
  fullscreen = false;
  maxed = false;
  tiled_class = false;
  pane_active_class = false;
  pane_maxed_class = false;
  rect = no_rect;
  z_index = none;
  float_rect = none;
  max_saved_rect = none;
  saved_height = unset;
}

-- `positionShellWindowFromClick` without a click.
abbrev pub placed : Bool → Viewport → Win → Win
placed mobile v w = if mobile then apply_window_viewport_mode true w else position_window v w

abbrev pub show_all_if_hidden : Page → Page
show_all_if_hidden p = if p.wins_hidden then show_all_windows p else p

unfoldable pub open_pane_workspace : Page → Page
unfolding apply_pane_grid
open_pane_workspace p = apply_pane_grid (record p { workspace_open = true })

-- A new window goes into the container, to the front and, in tile mode, into the grid.
unfoldable pub mount : Win → Page → Page
unfolding bring_to_front tile_window open_pane_workspace show_all_windows
mount w p =
    let front = bring_to_front w.node (record p { floating = p.floating ++ w ∷ [] }) in
    show_all_if_hidden
      (if front.tile_mode then open_pane_workspace (tile_window w.node front) else front)

abbrev pub counted : Windows → ℕ
counted d = suc d.viewport.window_count

-- `shellWindowCount += 1` and the window with that number, completed by `f`.
unfoldable pub add_window : (Win → Win) → Windows → Windows
unfolding mount new_win apply_window_viewport_mode position_window
add_window f d =
    let v = record d.viewport { window_count = counted d } in
    record d {
      viewport = v;
      page = mount (placed d.page.mobile v (f (new_win (counted d)))) d.page;
    }

unfoldable pub remove_node : ℕ → Page → Page
unfolding drop_node
remove_node n p = record p { floating = drop_node n p.floating; panes = drop_node n p.panes }

-- `closeShellWindow`.
unfoldable pub close_window : Win → Windows → Windows
unfolding remember_active unwatch_window remove_node
close_window w d = record d {
  last_active = remember_active w d.last_active;
  outbox = unwatch_window w d.outbox;
  aborted = if w.connect_abort then d.aborted ++ w.node ∷ [] else d.aborted;
  page = remove_node w.node d.page;
}

unfoldable pub session_of : Text → List Session → Option Session
session_of sid [] = none
session_of sid (s ∷ ss) = if text_eq s.id sid then some s else session_of sid ss

-- The review settings of the session in the last snapshot, `applyApprovalModeFromSnapshot`.
unfoldable pub seed_approval : Option Session → Win → Win
seed_approval none w = record w { approval_mode = false }
seed_approval (some s) w = reviewed s w

-- A window takes the review settings of the session that it still shows.
unfoldable pub approve : Text → ℕ → Bool → Win → Win
approve sid need on w =
    if text_eq w.parent_sid sid
    then record w { approval_need = need_of need; approval_mode = on }
    else w

-- `refreshApprovalState`: the server's answer, for the window of the session that asked.
unfoldable pub approval_read : ℕ → Text → Option (ℕ × Bool) → Windows → Windows
unfolding change_window approve
approval_read n sid none d = d
approval_read n sid (some (need, on)) d = record d {
  page = change_window n (approve sid need on) d.page;
}

-- `Promise.reject` to the caller.
abbrev pub reject : Text → Windows → Windows
reject conn d = record d { rejected = d.rejected ++ conn ∷ [] }
