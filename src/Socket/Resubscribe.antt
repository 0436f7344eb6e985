-- ===== src/Socket/Resubscribe.antt =====
-- What goes out when the socket opens: `flushPendingTerminalWatches` and
-- `resubscribeAllTerminalWatches` of internal/webui/assets/static/js/ui-socket.js.
use termcp.Base.{
  ℕ, Bool, true, not, List, [], ◌∷◌, ◌++◌, ◌≡◌, refl, ap, sym, ◌∙◌, inl, inr, Text, Dict, is_empty,
  keys, keep_if, map, append-nil, append_assoc, if◌then◌else◌, Bool-cases,
}
use termcp.Window.{Win, Channel}
use termcp.Window.Outbox.{
  Frame, watch_add, Outbox, ws_ui_send, send_terminal_watch, send_watches,
  flush_pending_terminal_watches,
}
use termcp.Socket.{
  Link, on_open, resubscribe_channels, resubscribe_window, resubscribe_all_terminal_watches,
}

abbrev pub named : Text → Bool
named sid = not (is_empty sid)

abbrev is_live : Text × Channel → Bool
is_live e = not e.1.stream_done

-- The shells of a window whose output has not ended.
abbrev pub live_of : Win → List Text
live_of w =
    if w.channels_made
    then keys (keep_if is_live w.channels)
    else if w.stream_done
    then []
    else w.sid ∷ []

abbrev pub live_all : List Win → List Text
live_all [] = []
live_all (w ∷ ws) = live_of w ++ live_all ws

abbrev pub sent : List Text → Outbox → Outbox
sent sids o = record o { frames = o.frames ++ map watch_add (keep_if named sids) }

with_frames : Outbox → List Frame → Outbox
with_frames o fs = record o { frames = fs }

send_named :
    (c : ℕ) (cs : Text) (o : Outbox)
    → o.online ≡ true
    → send_terminal_watch (c ∷ cs) true o ≡ with_frames o (o.frames ++ watch_add (c ∷ cs) ∷ [])
unfolding send_terminal_watch ws_ui_send with_frames
send_named c cs o on =
    ap (λ b. if b then record o { frames = o.frames ++ watch_add (c ∷ cs) ∷ [] } else o) on

send_watches-sent :
    (sids : List Text) (o : Outbox) → o.online ≡ true → send_watches sids o ≡ sent sids o
unfolding send_watches send_terminal_watch with_frames
send_watches-sent [] o on = ap (with_frames o) (sym (append-nil o.frames))
send_watches-sent ([] ∷ sids) o on = send_watches-sent sids o on
send_watches-sent ((c ∷ cs) ∷ sids) o on =
    let next = record o { frames = o.frames ++ watch_add (c ∷ cs) ∷ [] } in
    ap (send_watches sids) (send_named c cs o on)
    ∙ send_watches-sent sids next on
    ∙ ap (with_frames o)
        (append_assoc o.frames (watch_add (c ∷ cs) ∷ []) (map watch_add (keep_if named sids)))

send_watches-append :
    (xs ys : List Text) (o : Outbox)
    → send_watches (xs ++ ys) o ≡ send_watches ys (send_watches xs o)
unfolding send_watches
send_watches-append [] ys o = refl
send_watches-append (x ∷ xs) ys o = send_watches-append xs ys (send_terminal_watch x true o)

resubscribe_channels-send :
    (m : Dict Channel) (o : Outbox)
    → resubscribe_channels m o ≡ send_watches (keys (keep_if is_live m)) o
unfolding resubscribe_channels send_watches
resubscribe_channels-send [] o = refl
resubscribe_channels-send ((sid, ch) ∷ m) o = elim (Bool-cases ch.stream_done) [
  | inl e ↦ rw e (resubscribe_channels-send m o)
  | inr e ↦ rw e (resubscribe_channels-send m (send_terminal_watch sid true o))
]

resubscribe_window-send :
    (w : Win) (o : Outbox) → resubscribe_window w o ≡ send_watches (live_of w) o
unfolding resubscribe_window send_watches send_terminal_watch
resubscribe_window-send w o = elim (Bool-cases w.channels_made) [
  | inl made ↦ simp made (resubscribe_channels-send w.channels o)
  | inr bare ↦ elim (Bool-cases w.stream_done) [
    | inl e ↦ elim (Bool-cases (is_empty w.sid)) [
      | inl f ↦ simp (bare, e, f) refl
      | inr f ↦ simp (bare, e, f) refl
    ]
    | inr e ↦ elim (Bool-cases (is_empty w.sid)) [
      | inl f ↦ simp (bare, e, f) refl
      | inr f ↦ simp (bare, e, f) refl
    ]
  ]
]

resubscribe_all-send :
    (ws : List Win) (o : Outbox)
    → resubscribe_all_terminal_watches ws o ≡ send_watches (live_all ws) o
unfolding resubscribe_all_terminal_watches send_watches
resubscribe_all-send [] o = refl
resubscribe_all-send (w ∷ ws) o =
    resubscribe_all-send ws (resubscribe_window w o)
    ∙ ap (send_watches (live_all ws)) (resubscribe_window-send w o)
    ∙ sym (send_watches-append (live_of w) (live_all ws) o)

-- When the socket opens, the frames sent are exactly one `watch_add` for each shell whose watch was
-- pending, then one for each live shell of each window, in that order and none for an empty id, and
-- no watch stays pending.
pub on_open-sends :
    (l : Link)
    → ((on_open l).outbox.frames
        ≡ (l.outbox.frames ++ map watch_add (keep_if named (keys l.outbox.pending)))
          ++ map watch_add (keep_if named (live_all l.windows)))
      × ((on_open l).outbox.pending ≡ [])
unfolding on_open flush_pending_terminal_watches
on_open-sends l =
    let opened = record l.outbox { online = true } in
    let flushed = send_watches-sent (keys l.outbox.pending) opened refl in
    let all =
      λ (o : Outbox). resubscribe_all_terminal_watches l.windows (record o { pending = [] }) in
    let e =
      ap all flushed
      ∙ resubscribe_all-send l.windows
          (record (sent (keys l.outbox.pending) opened) { pending = [] })
      ∙ send_watches-sent (live_all l.windows)
          (record (sent (keys l.outbox.pending) opened) { pending = [] }) refl in
    (ap (λ (o : Outbox). o.frames) e, ap (λ (o : Outbox). o.pending) e)
