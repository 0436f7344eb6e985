-- ===== src/Window/Outbox.antt =====
-- What the page sends: the frames on the WebSocket, the watches that wait for it, and the requests
-- that end a shell. `wsUiSend`, `sendTerminalWatch`, `queueTerminalWatch` and
-- `flushPendingTerminalWatches` of internal/webui/assets/static/js/ui-socket.js.
use termcp.Base.{
  ℕ, Bool, true, List, [], ◌∷◌, ◌++◌, Text, Dict, insert, is_empty, keys, if◌then◌else◌,
}

pub data Frame : Type 0 where
  watch_add watch_remove : Text → Frame
  resize : Text → ℕ → ℕ → Frame
  input : Text → Text → Frame

pub record Outbox : Type 0 where
  -- a socket exists and its `readyState` is 1
  pub online : Bool
  -- the frames sent, oldest first
  pub frames : List Frame
  pub pending : Dict Bool
  -- the ids of the `DELETE /api/shells/{id}` requests, oldest first
  pub deletes : List Text

-- A frame for a socket that is not open is dropped.
unfoldable pub ws_ui_send : Frame → Outbox → Outbox
ws_ui_send f o = if o.online then record o { frames = o.frames ++ f ∷ [] } else o

unfoldable pub send_terminal_watch : Text → Bool → Outbox → Outbox
unfolding ws_ui_send
send_terminal_watch sid add o =
    if is_empty sid then o else ws_ui_send (if add then watch_add sid else watch_remove sid) o

unfoldable pub queue_terminal_watch : Text → Outbox → Outbox
unfolding send_terminal_watch
queue_terminal_watch sid o =
    if is_empty sid
    then o
    else if o.online
    then send_terminal_watch sid true o
    else record o { pending = insert sid true o.pending }

-- `sendTerminalWatch(sid, true)` for each id in turn.
unfoldable pub send_watches : List Text → Outbox → Outbox
unfolding send_terminal_watch
send_watches [] o = o
send_watches (sid ∷ sids) o = send_watches sids (send_terminal_watch sid true o)

unfoldable pub flush_pending_terminal_watches : Outbox → Outbox
unfolding send_watches
flush_pending_terminal_watches o = record (send_watches (keys o.pending) o) { pending = [] }

unfoldable pub delete_shell : Text → Outbox → Outbox
delete_shell sid o = record o { deletes = o.deletes ++ sid ∷ [] }
