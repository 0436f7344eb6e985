-- ===== src/Socket.antt =====
-- The one WebSocket of the page: `connectUIWebSocket`, `startUIWebSocket`, its `onopen` and
-- `onclose` handlers and `resubscribeAllTerminalWatches` of
-- internal/webui/assets/static/js/ui-socket.js. Each socket has a number, so that a handler of an
-- earlier socket is told from one of the current socket. `online` of the outbox is whether the
-- current socket is open; the browser and the network choose when a socket opens or closes.
pub mod Retry
pub mod Resubscribe
pub mod Incoming
use termcp.Base.{
  ℕ, suc, ◌+◌, ◌/◌, Bool, true, false, not, Option, none, some, List, [], ◌∷◌, Text, Dict, is_empty,
  ◌==◌, if◌then◌else◌,
}
use termcp.Util.Backoff.{sse_backoff_next}
use termcp.Window.{Win, Channel}
use termcp.Window.Outbox.{Outbox, send_terminal_watch, flush_pending_terminal_watches}

pub data Banner : Type 0 where
  no_banner syncing : Banner
  reconnecting : ℕ → Banner

pub record Link : Type 0 where
  -- the number of the socket in `window._uiWS`
  pub current : Option ℕ
  pub next_socket : ℕ
  pub outbox : Outbox
  -- the delay of the reconnect timer that runs
  pub retry_timer : Option ℕ
  -- `_sessionListSSEBackoff`; 0 is undefined
  pub backoff : ℕ
  pub banner : Banner
  -- how often the approval counts have been fetched
  pub count_reads : ℕ
  -- `allShellWins()`
  pub windows : List Win

-- `Object.keys(w._channels).forEach(…)`.
unfoldable pub resubscribe_channels : Dict Channel → Outbox → Outbox
resubscribe_channels [] o = o
resubscribe_channels ((sid, ch) ∷ m) o =
    resubscribe_channels m (if ch.stream_done then o else send_terminal_watch sid true o)

unfoldable pub resubscribe_window : Win → Outbox → Outbox
unfolding resubscribe_channels
resubscribe_window w o =
    if w.channels_made
    then resubscribe_channels w.channels o
    else if is_empty w.sid
    then o
    else if w.stream_done
    then o
    else send_terminal_watch w.sid true o

unfoldable pub resubscribe_all_terminal_watches : List Win → Outbox → Outbox
unfolding resubscribe_window
resubscribe_all_terminal_watches [] o = o
resubscribe_all_terminal_watches (w ∷ ws) o =
    resubscribe_all_terminal_watches ws (resubscribe_window w o)

abbrev pub offline : Outbox → Outbox
offline o = record o { online = false }

unfoldable pub connect_ui_web_socket : Link → Link
connect_ui_web_socket l = record l {
  retry_timer = none;
  current = some l.next_socket;
  next_socket = l.next_socket + 1;
  outbox = offline l.outbox;
}

unfoldable pub start_ui_web_socket : Link → Link
unfolding connect_ui_web_socket
start_ui_web_socket l = connect_ui_web_socket (record l { backoff = 1000 })

-- What the handler of the current socket does when it opens.
unfoldable pub on_open : Link → Link
unfolding resubscribe_all_terminal_watches flush_pending_terminal_watches
on_open l =
    let opened = record l.outbox { online = true } in
    let flushed = flush_pending_terminal_watches opened in
    record l {
      backoff = 1000;
      banner = syncing;
      outbox = resubscribe_all_terminal_watches l.windows flushed;
      count_reads = l.count_reads + 1;
    }

abbrev pub is_current : ℕ → Option ℕ → Bool
is_current g none = false
is_current g (some c) = g == c

abbrev pub or_default : ℕ → ℕ
or_default n = if n == 0 then 1000 else n

-- `Math.ceil(delay / 1000)`.
abbrev seconds : ℕ → ℕ
seconds delay = (delay + 999) / 1000

unfoldable pub schedule_retry : Link → Link
schedule_retry l =
    let delay = or_default l.backoff in
    record l {
      backoff = sse_backoff_next delay;
      banner = reconnecting (seconds delay);
      retry_timer = some delay;
    }

unfoldable pub on_close : ℕ → Link → Link
unfolding schedule_retry
on_close g l =
    let lost = record l { current = none; outbox = offline l.outbox } in
    if is_current g l.current
    then elim l.retry_timer [ some delay ↦ lost | none ↦ schedule_retry lost ]
    else l

-- The timer clears itself and connects.
unfoldable pub on_timer : Option ℕ → Link → Link
on_timer none l = l
on_timer (some delay) l = connect_ui_web_socket l

pub data Happening : Type 0 where
  starts : Happening
  opens closes : ℕ → Happening
  timer_fires : Happening

-- A socket that is not current has been closed by the page and does not open; a timer that does not
-- run does not fire.
unfoldable pub happen : Happening → Link → Link
unfolding start_ui_web_socket on_open on_close on_timer
happen starts l = start_ui_web_socket l
happen (opens g) l = if is_current g l.current then on_open l else l
happen (closes g) l = on_close g l
happen timer_fires l = on_timer l.retry_timer l

unfoldable pub happen_all : List Happening → Link → Link
unfolding happen
happen_all [] l = l
happen_all (h ∷ hs) l = happen_all hs (happen h l)
