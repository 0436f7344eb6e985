-- ===== src/Launch/Settled.antt =====
-- No window is left waiting: every event keeps the windows and the requests in step.
-- internal/webui/assets/static/js/terminal-view.js.
use termcp.Base.{
  ℕ, Bool, true, false, Option, none, some, List, [], ◌∷◌, Text, ◌≡◌, refl, Bool-cases,
  Option-cases, inl, inr, lookup, text_eq, codes,
}
use termcp.Window.{Win}
use termcp.Window.Outbox.{Outbox}
use termcp.Window.Channels.{create_channel_tab}
use termcp.Window.Sync.{ShellInfo}
use termcp.Layout.Actions.{window_of}
use termcp.Layout.Each.{All-drop}
use termcp.Layout.Life.Everywhere.{Holds, change_window-Everywhere, move-Everywhere}
use termcp.Launch.{Windows, ChannelRequest, remove_node, close_window, approve, approval_read}
use termcp.Launch.Focus.{on_window}
use termcp.Launch.Shells.{
  restore_shells, restore_tabs, shells_read, add_channel, channel_created, posted, create_channel,
}
use termcp.Launch.Starting.{Reply, request_of, answer}
use termcp.Launch.Identity.{
  create_channel_tab-Holds, restore_shells-Holds, restore_tabs-Holds, on_found-Everywhere,
}
use termcp.Launch.Tracked.{Awaits, IsTracked}
use termcp.Launch.Answered.{start_answered-IsTracked}
use termcp.Launch.Opened.{
  on_window-Same, Same-IsTracked, on_page, open_shell_window-IsTracked,
  focus_session_window-IsTracked, start-IsTracked,
}
use termcp.Launch.Life.{
  Event, starts, answers, opens, focuses, closes, lists, adds, creates, reads, lays, close_found,
  act, acts,
}

answer-IsTracked :
    (n : ℕ) (reply : Reply) (d : Windows) → IsTracked d → IsTracked (answer n reply d)
unfolding answer
answer-IsTracked n reply d h = elim (Option-cases (request_of n d.requests)) [
  | inl e ↦ rw (e, answer) h
  | inr (conn, e) ↦ rw (e, answer) (start_answered-IsTracked n d h conn reply e)
]

posted-Same :
    (n : ℕ) (r : Option ChannelRequest) (d : Windows) → IsTracked d → IsTracked (posted n r d)
posted-Same n none d h = h
posted-Same n (some r) d h = record { awaited = h.awaited; numbered = h.numbered }

on_window-IsTracked :
    (n : ℕ) (f : Outbox × Win → Outbox × Win) (o : Option Win) (d : Windows)
    → window_of n d.page ≡ o
    → ((Q : ℕ → Bool → Text → Type 0) (b : Outbox) (w : Win) → Holds Q w → Holds Q (f (b, w)).1)
    → IsTracked d
    → IsTracked (on_window n f o d)
on_window-IsTracked n f o d e k h =
    let Q = Awaits d.requests d.viewport.window_count in
    Same-IsTracked d (on_window n f o d) (on_window-Same n f o d)
      (on_found-Everywhere Q n f o d e (k Q) h.awaited) h

add_channel-IsTracked :
    (n : ℕ) (mode command : Text) (d : Windows)
    → IsTracked d
    → IsTracked (add_channel n mode command d)
unfolding add_channel
add_channel-IsTracked n mode command d h = elim (Option-cases (window_of n d.page)) [
  | inl e ↦ rw (e, add_channel) h
  | inr (w, e) ↦ rw (e, add_channel) (posted-Same n (create_channel mode command w) d h)
]

shells_read-IsTracked :
    (n : ℕ) (b : Bool) (o : Option (List ShellInfo)) (d : Windows)
    → IsTracked d
    → IsTracked (shells_read n b o d)
unfolding shells_read
shells_read-IsTracked n b (some shells) d h = elim (Option-cases (window_of n d.page)) [
  | inl e ↦ rw (e, shells_read) h
  | inr (w, e) ↦
      rw (e, shells_read)
        (on_window-IsTracked n (restore_shells b (lookup w.sid d.last_active) shells) (some w) d e
          (λ Q o u k. restore_shells-Holds Q b _ shells o u k) h)
]
shells_read-IsTracked n true none d h =
    on_window-IsTracked n (restore_tabs true none []) _ d refl
      (λ Q o u k. restore_tabs-Holds Q true none [] o u k) h
shells_read-IsTracked n false none d h = add_channel-IsTracked n (codes "pty") [] d h

channel_created-IsTracked :
    (n : ℕ) (o : Option Text) (d : Windows) → IsTracked d → IsTracked (channel_created n o d)
unfolding channel_created
channel_created-IsTracked n none d h = record { awaited = h.awaited; numbered = h.numbered }
channel_created-IsTracked n (some sid) d h =
    on_window-IsTracked n (λ (o, w). (o, create_channel_tab sid false w)) _ d refl
      (λ Q o u k. create_channel_tab-Holds Q sid false u k) h

approve-Holds :
    (Q : ℕ → Bool → Text → Type 0) (sid : Text) (need : ℕ) (on : Bool) (w : Win)
    → Holds Q w
    → Holds Q (approve sid need on w)
unfolding approve
approve-Holds Q sid need on w h = elim (Bool-cases (text_eq w.parent_sid sid)) [
  | inl e ↦ simp e h
  | inr e ↦ simp e h
]

approval_read-IsTracked :
    (n : ℕ) (sid : Text) (o : Option (ℕ × Bool)) (d : Windows)
    → IsTracked d
    → IsTracked (approval_read n sid o d)
unfolding approval_read
approval_read-IsTracked n sid none d h = h
approval_read-IsTracked n sid (some (need, on)) d h = on_page _ d h (
    change_window-Everywhere (Awaits d.requests d.viewport.window_count) n (approve sid need on)
      d.page (approve-Holds (Awaits d.requests d.viewport.window_count) sid need on) h.awaited)

close_found-IsTracked :
    (n : ℕ) (o : Option Win) (d : Windows) → IsTracked d → IsTracked (close_found o d)
unfolding close_found close_window remove_node
close_found-IsTracked n none d h = h
close_found-IsTracked n (some w) d h = record {
  awaited = record {
    on_floating =
        All-drop (Holds (Awaits d.requests d.viewport.window_count)) w.node d.page.floating
          h.awaited.on_floating;
    on_panes =
        All-drop (Holds (Awaits d.requests d.viewport.window_count)) w.node d.page.panes
          h.awaited.on_panes;
  };
  numbered = h.numbered;
}

act-IsTracked : (e : Event) (d : Windows) → IsTracked d → IsTracked (act e d)
unfolding act
act-IsTracked (starts conn opt) d h = start-IsTracked conn opt d h
act-IsTracked (answers n reply) d h = answer-IsTracked n reply d h
act-IsTracked (opens label sid b) d h = open_shell_window-IsTracked label sid b d h
act-IsTracked (focuses label sid b) d h = focus_session_window-IsTracked label sid b d h
act-IsTracked (closes n) d h = close_found-IsTracked n (window_of n d.page) d h
act-IsTracked (lists n b shells) d h = shells_read-IsTracked n b shells d h
act-IsTracked (adds n mode command) d h = add_channel-IsTracked n mode command d h
act-IsTracked (creates n sid) d h = channel_created-IsTracked n sid d h
act-IsTracked (reads n sid reply) d h = approval_read-IsTracked n sid reply d h
act-IsTracked (lays m) d h =
    on_page _ d h (move-Everywhere (Awaits d.requests d.viewport.window_count) m d.page h.awaited)

pub acts-IsTracked : (es : List Event) (d : Windows) → IsTracked d → IsTracked (acts es d)
unfolding acts
acts-IsTracked [] d h = h
acts-IsTracked (e ∷ es) d h = acts-IsTracked es (act e d) (act-IsTracked e d h)
