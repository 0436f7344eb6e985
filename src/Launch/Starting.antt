-- ===== src/Launch/Starting.antt =====
-- `startSessionAndOpenShell` and `finalizePendingShellWindow` of
-- internal/webui/assets/static/js/terminal-view.js: a session is started while a window waits for
-- it. The answer of the server is an argument.
use termcp.Base.{
  ℕ, false, Option, none, some, List, [], ◌∷◌, ◌++◌, Text, codes, or_text, ◌==◌, if◌then◌else◌,
}
use termcp.Window.{Win}
use termcp.Window.Channels.{create_channel_tab}
use termcp.Layout.{change_window, bring_to_front}
use termcp.Layout.Actions.{window_of}
use termcp.Sessions.{Session}
use termcp.Launch.{
  Windows, StartRequest, get_pending_shell_window_for_conn, session_of, seed_approval, close_window,
  reject,
}
use termcp.Launch.Opening.{open_pending_shell_window, open_shell_window}

-- The settings of a start that the caller chose; the empty text is the default.
pub record StartOptions : Type 0 where
  pub command : Text
  pub args : List Text
  pub mode : Text
  pub name : Text

-- What comes of the request: an error or an abort, or the ids of the answer, empty when missing.
pub data Reply : Type 0 where
  failed : Reply
  started : Text → Text → Reply

abbrev pub request_for : ℕ → Text → StartOptions → StartRequest
request_for n conn opt = record {
  window = n;
  ssh_config = conn;
  name = or_text opt.name conn;
  command = opt.command;
  args = opt.args;
  mode = opt.mode;
}

abbrev pub requested : Option ℕ → Text → StartOptions → Windows → Windows
requested none conn opt d = reject conn d
requested (some n) conn opt d = record d { requests = d.requests ++ request_for n conn opt ∷ [] }

unfoldable pub start_session_and_open_shell : Text → StartOptions → Windows → Windows
unfolding get_pending_shell_window_for_conn open_pending_shell_window bring_to_front
start_session_and_open_shell conn opt d = elim (get_pending_shell_window_for_conn conn d.page) [
  | some n ↦ record d { page = bring_to_front n d.page }
  | none ↦ let (o, e) = open_pending_shell_window conn d in requested o conn opt e
]

-- The fields of a window whose session has started.
unfoldable pub finalized : Text → Text → Text → Option Session → Win → Win
unfolding seed_approval create_channel_tab
finalized label sid shell_id s w = create_channel_tab (or_text shell_id sid) false (
    seed_approval s (record w {
      connect_abort = false;
      placeholder = false;
      pending_conn_name = [];
      sid = sid;
      parent_sid = sid;
      primary_shell_id = some (or_text shell_id sid);
      conn_name = label;
      input_closed = false;
    }))

unfoldable pub finalize_pending_shell_window : ℕ → Text → Text → Text → Windows → Windows
unfolding change_window finalized session_of
finalize_pending_shell_window n label sid shell_id d = record d {
  page = change_window n (finalized label sid shell_id (session_of sid d.snapshot)) d.page;
}

abbrev pub request_of : ℕ → List StartRequest → Option Text
request_of n [] = none
request_of n (r ∷ rs) = if r.window == n then some r.ssh_config else request_of n rs

abbrev pub without_request : ℕ → List StartRequest → List StartRequest
without_request n [] = []
without_request n (r ∷ rs) =
    if r.window == n then without_request n rs else r ∷ without_request n rs

-- The error path: the window closes if it is still waiting.
unfoldable pub start_failed : Option Win → Windows → Windows
unfolding close_window
start_failed none d = d
start_failed (some w) d = if w.placeholder then close_window w d else d

-- The session has started; its window may have been closed meanwhile.
unfoldable pub start_succeeded : ℕ → Text → Text → Text → Option Win → Windows → Windows
unfolding finalize_pending_shell_window open_shell_window
start_succeeded n conn sid shell_id none d =
    open_shell_window (or_text conn (codes "session")) sid false d
start_succeeded n conn sid shell_id (some w) d =
    finalize_pending_shell_window n (or_text conn (codes "session")) sid shell_id d

-- An answer without a session id is an error.
unfoldable pub start_answered : ℕ → Text → Reply → Windows → Windows
unfolding start_failed start_succeeded
start_answered n conn failed d = reject conn (start_failed (window_of n d.page) d)
start_answered n conn (started [] shell_id) d = reject conn (start_failed (window_of n d.page) d)
start_answered n conn (started (c ∷ sid) shell_id) d =
    start_succeeded n conn (c ∷ sid) shell_id (window_of n d.page) d

unfoldable pub answer : ℕ → Reply → Windows → Windows
unfolding start_answered
answer n reply d = elim (request_of n d.requests) [
  | none ↦ d
  | some conn ↦ start_answered n conn reply (record d { requests = without_request n d.requests })
]
