-- ===== src/Window/Life.antt =====
-- The life of a window's channels as a sequence of events: the user opens, selects and closes tabs,
-- the server reports ends and lists, histories finish loading, and the session dies.
-- internal/webui/assets/static/js/terminal-view.js, sessions.js and ui-socket.js.
pub mod Every
pub mod Marker
pub mod Strips
use termcp.Base.{Bool, false, List, [], ◌∷◌, Text, ◌≢◌}
use termcp.Window.{Win}
use termcp.Window.Outbox.{Outbox}
use termcp.Window.Channels.{
  switch_channel_tab, create_channel_tab, close_channel_tab, terminal_done, history_finished,
  lock_window_readonly,
}
use termcp.Window.Sync.{ShellInfo, sync_window_tabs}
use termcp.Window.Sync.Added.{AllNamed}

pub data Event : Type 0 where
  creates : Text → Bool → Event
  selects closes ends loads : Text → Event
  locks : Event
  syncs : List ShellInfo → Event

pub step : Event → Outbox × Win → Outbox × Win
step (creates sid history) (o, w) = (o, create_channel_tab sid history w)
step (selects sid) (o, w) = (o, switch_channel_tab sid w)
step (closes sid) ow = close_channel_tab sid ow
step (ends sid) (o, w) = (o, terminal_done sid w)
step (loads sid) ow = history_finished sid ow
step locks ow = lock_window_readonly ow
step (syncs shells) ow = sync_window_tabs shells ow

pub run : List Event → Outbox × Win → Outbox × Win
run [] ow = ow
run (e ∷ es) ow = run es (step e ow)

-- The ids that come from the server are not empty.
abbrev pub IsNamed : Event → Type 0
IsNamed (creates sid history) = sid ≢ []
IsNamed (syncs shells) = AllNamed shells
IsNamed _ = Unit
