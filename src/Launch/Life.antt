-- ===== src/Launch/Life.antt =====
-- The events of the windows of the page: sessions are started, opened, focused and closed, answers
-- of the server come in, and the layout changes. internal/webui/assets/static/js/terminal-view.js,
-- shell-windows.js and ui-socket.js.
use termcp.Base.{ℕ, Bool, Option, none, some, List, [], ◌∷◌, Text}
use termcp.Window.{Win}
use termcp.Window.Sync.{ShellInfo}
use termcp.Layout.Actions.{window_of}
use termcp.Layout.Life.{Move, move}
use termcp.Launch.{Windows, close_window, approval_read}
use termcp.Launch.Opening.{open_shell_window, focus_session_window}
use termcp.Launch.Shells.{shells_read, add_channel, channel_created}
use termcp.Launch.Starting.{StartOptions, Reply, start_session_and_open_shell, answer}

pub data Event : Type 0 where
  starts : Text → StartOptions → Event
  answers : ℕ → Reply → Event
  opens focuses : Text → Text → Bool → Event
  closes : ℕ → Event
  lists : ℕ → Bool → Option (List ShellInfo) → Event
  adds : ℕ → Text → Text → Event
  creates : ℕ → Option Text → Event
  reads : ℕ → Text → Option (ℕ × Bool) → Event
  lays : Move → Event

unfoldable pub close_found : Option Win → Windows → Windows
unfolding close_window
close_found none d = d
close_found (some w) d = close_window w d

unfoldable pub act : Event → Windows → Windows
unfolding start_session_and_open_shell answer open_shell_window focus_session_window close_found
    shells_read add_channel channel_created approval_read move
act (starts conn opt) d = start_session_and_open_shell conn opt d
act (answers n reply) d = answer n reply d
act (opens label sid read_only) d = open_shell_window label sid read_only d
act (focuses label sid read_only) d = focus_session_window label sid read_only d
act (closes n) d = close_found (window_of n d.page) d
act (lists n read_only shells) d = shells_read n read_only shells d
act (adds n mode command) d = add_channel n mode command d
act (creates n sid) d = channel_created n sid d
act (reads n sid reply) d = approval_read n sid reply d
act (lays m) d = record d { page = move m d.page }

unfoldable pub acts : List Event → Windows → Windows
unfolding act
acts [] d = d
acts (e ∷ es) d = acts es (act e d)
