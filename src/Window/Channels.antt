-- ===== src/Window/Channels.antt =====
-- The channel tabs of a window: `createChannelTab`, `switchChannelTab`, `closeChannelTab` and
-- `_channelNeighbor` of internal/webui/assets/static/js/terminal-view.js, and the read-only lock
-- and the end marker of internal/webui/assets/static/js/sessions.js.
use termcp.Base.{
  ℕ, ◌+◌, ◌-◌, Bool, true, false, ◌||◌, Option, none, some, List, [], ◌∷◌, ◌++◌, Text, Dict,
  text_eq, lookup, insert, delete, differs, keep_if, is_empty, ◌==◌, if◌then◌else◌, ◌≡◌, inl, inr,
  Option-cases, Bool-cases,
}
use termcp.Window.{Win, Channel, TabElement}
use termcp.Window.Outbox.{Outbox, send_terminal_watch, queue_terminal_watch, delete_shell}

abbrev pub is_active : Option Text → Text → Bool
is_active none k = false
is_active (some s) k = text_eq k s

-- `classList.toggle('active', chsid === sid)` on every element.
unfoldable pub mark : Text → List TabElement → List TabElement
mark sid [] = []
mark sid (e ∷ es) = record e { active = text_eq e.chsid sid } ∷ mark sid es

unfoldable pub deactivate : List TabElement → List TabElement
deactivate [] = []
deactivate (e ∷ es) = record e { active = false } ∷ deactivate es

unfoldable pub select : Text → Win → Win
unfolding mark
select sid w = record w {
  active_channel_sid = some sid;
  shell_user_input_ready = true;
  tabs = mark sid w.tabs;
  instances = mark sid w.instances;
}

unfoldable pub switch_channel_tab : Text → Win → Win
unfolding select
switch_channel_tab sid w = elim (lookup sid w.channels) [
  | none ↦ w
  | some ch ↦ if is_active w.active_channel_sid sid then w else select sid w
]

abbrev pub new_channel : Bool → ℕ → Channel
new_channel history index = record {
  read_only_history = history;
  stream_done = history;
  ended_mark_printed = false;
  history_loaded = false;
  url_index = index;
  marker_lines = 0;
}

unfoldable pub open_tab : Text → Bool → Win → Win
unfolding deactivate
open_tab sid history w = record w {
  channels_made = true;
  empty_shown = false;
  body_hidden = false;
  tabs = deactivate w.tabs ++ record { chsid = sid; active = true } ∷ [];
  instances = deactivate w.instances ++ record { chsid = sid; active = true } ∷ [];
  channels = insert sid (new_channel history (w.channel_seq + 1)) w.channels;
  active_channel_sid = some sid;
  channel_count = w.channel_count + 1;
  channel_seq = w.channel_seq + 1;
}

unfoldable pub create_channel_tab : Text → Bool → Win → Win
unfolding open_tab switch_channel_tab
create_channel_tab sid history w = elim (lookup sid w.channels) [
  | some ch ↦ switch_channel_tab sid w
  | none ↦ open_tab sid history w
]

-- The loop of `_channelNeighbor`: `found` and `prev` are its variables.
unfoldable pub neighbor_from : Text → List TabElement → Bool → Option Text → Option Text
neighbor_from sid [] found prev = prev
neighbor_from sid (e ∷ es) found prev = elim (text_eq e.chsid sid) [
  | true ↦ neighbor_from sid es true prev
  | false ↦ elim found [ true ↦ some e.chsid | false ↦ neighbor_from sid es false (some e.chsid) ]
]

unfoldable pub channel_neighbor : Text → Win → Option Text
unfolding neighbor_from
channel_neighbor sid w = neighbor_from sid w.tabs false none

unfoldable pub show_channel_empty : Bool → Win → Win
show_channel_empty shown w = record w { empty_shown = shown; body_hidden = shown }

-- The window shows nothing once its last channel is gone.
unfoldable pub settle : Win → Win
unfolding show_channel_empty
settle w =
    if w.channel_count == 0
    then show_channel_empty true (record w { active_channel_sid = none })
    else w

unfoldable pub switch_or_settle : Option Text → Win → Win
unfolding settle switch_channel_tab
switch_or_settle none w = settle w
switch_or_settle (some n) w =
    if is_empty n
    then settle w
    else elim (lookup n w.channels) [ some ch ↦ switch_channel_tab n w | none ↦ settle w ]

-- The channel, its tab and its terminal leave the window.
unfoldable pub drop_channel : Text → Win → Win
drop_channel sid w = record w {
  tabs = keep_if (λ e. differs sid e.chsid) w.tabs;
  instances = keep_if (λ e. differs sid e.chsid) w.instances;
  channels = delete sid w.channels;
  channel_count = w.channel_count - 1;
  channel_seq = if w.channel_count - 1 == 0 then 0 else w.channel_seq;
}

unfoldable pub after_close : Text → Win → Win
after_close sid w =
    if is_active w.active_channel_sid sid then switch_or_settle (channel_neighbor sid w) w else w

unfoldable pub close_channel_tab : Text → Outbox × Win → Outbox × Win
unfolding after_close channel_neighbor switch_or_settle drop_channel send_terminal_watch
    delete_shell
close_channel_tab sid (o, w) = elim (lookup sid w.channels) [
  | none ↦ (o, w)
  | some ch ↦
      let told = send_terminal_watch sid false o in
      (if w.read_only then told else delete_shell sid told, after_close sid (drop_channel sid w))
]

-- The end marker, at most once for a channel.
unfoldable pub show_terminal_ended_marker : Channel → Channel
show_terminal_ended_marker ch =
    if ch.ended_mark_printed
    then ch
    else record ch { ended_mark_printed = true; marker_lines = ch.marker_lines + 1 }

-- The effect of the lock on one channel.
unfoldable pub lock_channel : Channel → Channel
unfolding show_terminal_ended_marker
lock_channel ch =
    let done = record ch { stream_done = true } in
    if ch.history_loaded then show_terminal_ended_marker done else done

unfoldable pub map_channels : (Channel → Channel) → Dict Channel → Dict Channel
map_channels f [] = []
map_channels f ((k, ch) ∷ m) = (k, f ch) ∷ map_channels f m

unfoldable pub unwatch_all : Dict Channel → Outbox → Outbox
unfolding send_terminal_watch
unwatch_all [] o = o
unwatch_all ((k, ch) ∷ m) o = unwatch_all m (send_terminal_watch k false o)

unfoldable pub lock_window_readonly : Outbox × Win → Outbox × Win
unfolding lock_channel map_channels unwatch_all
lock_window_readonly (o, w) = (
  unwatch_all w.channels o,
  record w {
    locked_readonly = true;
    read_only = true;
    input_closed = true;
    dead_badge_added = true;
    channels = map_channels lock_channel w.channels;
  },
)

-- Replaces one channel that the window holds.
unfoldable pub modify_channel : Text → (Channel → Channel) → Win → Win
modify_channel sid f w = elim (lookup sid w.channels) [
  | none ↦ w
  | some ch ↦ record w { channels = insert sid (f ch) w.channels }
]

-- The `terminal_done` frame for a channel of the window.
unfoldable pub terminal_done : Text → Win → Win
unfolding modify_channel show_terminal_ended_marker
terminal_done sid =
    modify_channel sid λ ch. show_terminal_ended_marker (record ch { stream_done = true })

-- What follows the download of a channel's history; the channel may have been closed meanwhile.
unfoldable pub history_finished : Text → Outbox × Win → Outbox × Win
unfolding modify_channel show_terminal_ended_marker queue_terminal_watch
history_finished sid (o, w) = elim (lookup sid w.channels) [
  | none ↦ (if w.read_only then o else queue_terminal_watch sid o, w)
  | some ch ↦
      if w.read_only || ch.read_only_history
      then (
        o,
        modify_channel sid (λ c. show_terminal_ended_marker (record c { history_loaded = true })) w,
      )
      else (
        queue_terminal_watch sid o,
        modify_channel sid (λ c. record c { history_loaded = true }) w,
      )
]

-- The two ways in which a selection ends.
pub switch_cases {ℓ} :
    (P : Win → Type ℓ) (sid : Text) (w : Win)
    → P w
    → ((ch : Channel) → lookup sid w.channels ≡ some ch → P (select sid w))
    → P (switch_channel_tab sid w)
unfolding switch_channel_tab
switch_cases P sid w stay move = elim (Option-cases (lookup sid w.channels)) [
  | inl e ↦ rw (e, switch_channel_tab) stay
  | inr (ch, e) ↦ elim (Bool-cases (is_active w.active_channel_sid sid)) [
    | inl same ↦ rw (e, switch_channel_tab) (rw same stay)
    | inr other ↦ rw (e, switch_channel_tab) (rw other (move ch e))
  ]
]

pub create_cases {ℓ} :
    (P : Win → Type ℓ) (sid : Text) (history : Bool) (w : Win)
    → ((ch : Channel) → lookup sid w.channels ≡ some ch → P (switch_channel_tab sid w))
    → (lookup sid w.channels ≡ none → P (open_tab sid history w))
    → P (create_channel_tab sid history w)
unfolding create_channel_tab
create_cases P sid history w old fresh = elim (Option-cases (lookup sid w.channels)) [
  | inl e ↦ rw (e, create_channel_tab) (fresh e)
  | inr (ch, e) ↦ rw (e, create_channel_tab) (old ch e)
]
