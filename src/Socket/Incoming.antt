-- ===== src/Socket/Incoming.antt =====
-- The frames that the server sends: `onmessage` of the socket in
-- internal/webui/assets/static/js/ui-socket.js. The output of a shell is recorded in the order in
-- which it is written to the terminal of its channel; `win._term`, which the code falls back on, is
-- never set. What the session frame redraws and asks for afterwards is left out.
pub mod Ended
pub mod Silent
use termcp.Base.{
  ℕ, suc, ◌+◌, length, keep_if, any, ◌==◌, Bool, true, false, Option, none, some, List, [], ◌∷◌,
  ◌++◌, Text, Dict, lookup, is_some, if◌then◌else◌,
}
use termcp.Window.{Win, Channel}
use termcp.Window.Channels.{terminal_done}
use termcp.Layout.{Page, find_node, change_window}
use termcp.Layout.Actions.{window_of}
use termcp.Sessions.{Session, Registry, apply_sessions_snapshot}
use termcp.Launch.{Windows, all_shell_wins, get_shell_window_by_sid}
use termcp.Notify.{Notice, Board, show_ui_notify, on_approval_event}

pub data Incoming : Type 0 where
  sessions : List Session → Incoming
  terminal : Text → Text → Incoming
  done : Text → Incoming
  ui_notify approval : Notice → Incoming
  -- a frame of another type, and one that is no JSON
  other broken : Incoming

pub record Feed : Type 0 where
  pub board : Board
  -- `_selectedSessionIds`
  pub selected : Dict Bool
  -- the output written, oldest first, with the shell that it belongs to
  pub written : List (Text × Text)
  -- how often the rule panels, the approval counts and the open review panels were read again
  pub rule_reads : ℕ
  pub count_reads : ℕ
  pub queue_reads : ℕ
  pub errors : ℕ

unfoldable pub channel_window : Text → List Win → Option ℕ
channel_window id [] = none
channel_window id (w ∷ ws) =
    if is_some (lookup id w.channels) then some w.node else channel_window id ws

unfoldable pub find_shell_window_by_channel_sid : Text → Page → Option ℕ
unfolding channel_window
find_shell_window_by_channel_sid id p = channel_window id (all_shell_wins p)

-- The window of the session with that id, else the one with such a channel.
unfoldable pub window_for : Text → Page → Option Win
unfolding get_shell_window_by_sid find_shell_window_by_channel_sid
window_for id p = elim (get_shell_window_by_sid id p) [
  | some n ↦ window_of n p
  | none ↦ elim (find_shell_window_by_channel_sid id p) [ some n ↦ window_of n p | none ↦ none ]
]

unfoldable pub write_to : Text → Text → Option Channel → Feed → Feed
write_to id d none f = f
write_to id d (some ch) f =
    if ch.stream_done then f else record f { written = f.written ++ (id, d) ∷ [] }

abbrev pub write_in : Text → Text → Option Win → Feed → Feed
write_in id d none f = f
write_in id d (some w) f = write_to id d (lookup id w.channels) f

abbrev pub on_desk : (Page → Page) → Feed → Feed
on_desk g f = record f {
  board = record f.board { desk = record f.board.desk { page = g f.board.desk.page } };
}

abbrev pub ended_window : Win → Win
ended_window w = record w { stream_done = true }

-- The end of a channel, or of a window that does not hold it.
unfoldable pub end_stream : Text → Win → Win
unfolding terminal_done
end_stream id w = if is_some (lookup id w.channels) then terminal_done id w else ended_window w

unfoldable pub done_in : Text → Option Win → Feed → Feed
unfolding end_stream change_window
done_in id none f = f
done_in id (some w) f = on_desk (change_window w.node (end_stream id)) f

-- The windows of a list that are still there, as they are now.
unfoldable pub still_there : List Win → List Win → List Win
still_there now [] = []
still_there now (w ∷ ws) = elim (find_node w.node now) [
  | some v ↦ v ∷ still_there now ws
  | none ↦ still_there now ws
]

unfoldable pub registry_of : Feed → Registry
registry_of f = record {
  windows = all_shell_wins f.board.desk.page;
  outbox = f.board.desk.outbox;
  highlights = f.board.highlights;
  selected = f.selected;
  last_active = f.board.desk.last_active;
  snapshot = f.board.desk.snapshot;
}

unfoldable pub with_registry : Registry → Feed → Feed
unfolding still_there
with_registry r f = record f {
  board = record f.board {
    highlights = r.highlights;
    desk = record f.board.desk {
      page = record f.board.desk.page {
        floating = still_there r.windows f.board.desk.page.floating;
        panes = still_there r.windows f.board.desk.page.panes;
      };
      outbox = r.outbox;
      last_active = r.last_active;
      snapshot = r.snapshot;
    };
  };
  selected = r.selected;
  rule_reads = suc f.rule_reads;
}

-- The windows of the page whose review panel is open.
abbrev open_sheets : Board → ℕ
open_sheets b =
    length (keep_if (λ w. any (λ k. k == w.node) b.review_open) (all_shell_wins b.desk.page))

-- `later` is how the user answers when the browser asks for notifications, `title` the word for a
-- review.
unfoldable pub on_message : Bool → Text → Incoming → Feed → Feed
unfolding window_for write_to done_in registry_of with_registry apply_sessions_snapshot
    show_ui_notify on_approval_event
on_message later title (sessions ss) f =
    with_registry (apply_sessions_snapshot ss (registry_of f)) f
on_message later title (terminal id d) f = write_in id d (window_for id f.board.desk.page) f
on_message later title (done id) f = done_in id (window_for id f.board.desk.page) f
on_message later title (ui_notify n) f = record f { board = show_ui_notify later n f.board }
on_message later title (approval n) f = record f {
  board = on_approval_event later title n f.board;
  count_reads = suc f.count_reads;
  queue_reads = f.queue_reads + open_sheets f.board;
}
on_message later title other f = f
on_message later title broken f = record f { errors = suc f.errors }

unfoldable pub on_messages : Bool → Text → List Incoming → Feed → Feed
unfolding on_message
on_messages later title [] f = f
on_messages later title (m ∷ ms) f = on_messages later title ms (on_message later title m f)
