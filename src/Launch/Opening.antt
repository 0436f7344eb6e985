-- ===== src/Launch/Opening.antt =====
-- `openShellWindow` of internal/webui/assets/static/js/terminal-view.js and `focusSessionWindow` of
-- shell-windows.js, which call each other, and `openPendingShellWindow`.
use termcp.Base.{ℕ, suc, Bool, true, Option, none, some, [], ◌∷◌, ◌++◌, Text, if◌then◌else◌}
use termcp.Window.{Win}
use termcp.Sessions.{Session}
use termcp.Launch.{Windows, get_shell_window_by_sid, counted, add_window, session_of, seed_approval}
use termcp.Launch.Focus.{focus_found}

abbrev pub alerted : Windows → Windows
alerted d = record d { alerts = suc d.alerts }

-- The fields of a window opened for a session.
unfoldable pub of_session : Text → Text → Bool → Option Session → Win → Win
unfolding seed_approval
of_session label sid read_only s w = seed_approval s (record w {
  sid = sid;
  read_only = read_only;
  parent_sid = sid;
  conn_name = label;
  input_closed = read_only;
})

-- The window of a session that has none; its shells are asked for.
unfoldable pub open_new : Text → Text → Bool → Windows → Windows
unfolding add_window of_session session_of
open_new label sid read_only d =
    record (add_window (of_session label sid read_only (session_of sid d.snapshot)) d) {
      shell_reads = d.shell_reads ++ (counted d, read_only) ∷ [];
    }

unfoldable pub open_shell_window : Text → Text → Bool → Windows → Windows
unfolding open_new focus_found get_shell_window_by_sid
open_shell_window label sid read_only d =
    if d.has_terminal
    then elim (get_shell_window_by_sid sid d.page) [
      | some n ↦ focus_found n read_only d
      | none ↦ open_new label sid read_only d
    ]
    else alerted d

unfoldable pub focus_session_window : Text → Text → Bool → Windows → Windows
unfolding open_shell_window focus_found get_shell_window_by_sid
focus_session_window label sid read_only d = elim (get_shell_window_by_sid sid d.page) [
  | some n ↦ focus_found n read_only d
  | none ↦ open_shell_window label sid read_only d
]

unfoldable pub connecting : Text → Win → Win
connecting conn w = record w { placeholder = true; pending_conn_name = conn; connect_abort = true }

-- The new window, and `none` when the terminal emulator did not load.
unfoldable pub open_pending_shell_window : Text → Windows → Option ℕ × Windows
unfolding add_window connecting
open_pending_shell_window conn d =
    if d.has_terminal then (some (counted d), add_window (connecting conn) d) else (none, alerted d)
