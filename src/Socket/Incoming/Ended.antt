-- ===== src/Socket/Incoming/Ended.antt =====
-- Shells that have ended, in every window: internal/webui/assets/static/js/ui-socket.js.
use termcp.Base.{
  ℕ, Bool, true, false, Option, none, some, List, [], ◌∷◌, ◌++◌, Text, Dict, ◌≡◌, refl, sym, subst,
  arith, All, All-append, text_eq, lookup, lookup-insert, is_some, keep_if, map, Bool-cases,
  Option-cases, inl, inr, if◌then◌else◌, append-nil,
}
use termcp.Window.{Win, Channel}
use termcp.Window.Channels.{
  terminal_done, modify_channel, map_channels, lock_channel, show_terminal_ended_marker,
}
use termcp.Layout.{Page, find_node, change_window}
use termcp.Layout.Actions.{window_of}
use termcp.Layout.Each.{All-change, All-find}
use termcp.Sessions.{Session, is_loose}
use termcp.Sessions.Snapshot.{stays, settled, followed}
use termcp.Launch.{get_shell_window_by_sid}
use termcp.Socket.Incoming.{
  Feed, window_for, find_shell_window_by_channel_sid, ended_window, end_stream, still_there,
}

abbrev pub Over : Option Channel → Type 0
Over none = Unit
Over (some ch) = ch.stream_done ≡ true

-- The output of one shell.
abbrev pub output_of : Text → Feed → List (Text × Text)
output_of id f = keep_if (λ e. text_eq e.0 id) f.written

lock_channel-done : (ch : Channel) → (lock_channel ch).stream_done ≡ true
unfolding lock_channel show_terminal_ended_marker
lock_channel-done ch = ground arith

marker-done : (ch : Channel) → (show_terminal_ended_marker ch).stream_done ≡ ch.stream_done
unfolding show_terminal_ended_marker
marker-done ch = ground arith

pub keep_if-append :
    (id : Text) (xs ys : List (Text × Text))
    → keep_if (λ e. text_eq e.0 id) (xs ++ ys)
      ≡ keep_if (λ e. text_eq e.0 id) xs ++ keep_if (λ e. text_eq e.0 id) ys
keep_if-append id [] ys = refl
keep_if-append id (x ∷ xs) ys = ground (arith, keep_if-append id xs ys)

module _ (id : Text) where
  -- The shell has ended in a window that holds it.
  abbrev pub Ended : Win → Type 0
  Ended w = Over (lookup id w.channels)

  pub record AllEnded (p : Page) : Type 0 where
    pub on_floating : All Ended p.floating
    pub on_panes : All Ended p.panes

  pub change-AllEnded :
      (n : ℕ) (f : Win → Win) (p : Page)
      → ((w : Win) → Ended w → Ended (f w))
      → AllEnded p
      → AllEnded (change_window n f p)
  unfolding change_window
  change-AllEnded n f p k h = record {
    on_floating = All-change Ended n f p.floating k h.on_floating;
    on_panes = All-change Ended n f p.panes k h.on_panes;
  }

  pub locked-Over :
      (m : Dict Channel) → Over (lookup id m) → Over (lookup id (map_channels lock_channel m))
  unfolding lookup map_channels
  locked-Over [] h = h
  locked-Over ((k, ch) ∷ m) h = elim (Bool-cases (text_eq k id)) [
    | inl e ↦ rw e (lock_channel-done ch)
    | inr e ↦ rw e (locked-Over m (rw e at h))
  ]

  followed-Ended : (o : Option Session) (w : Win) → Ended w → Ended (followed o w)
  followed-Ended none w h = h
  followed-Ended (some s) w h = elim (Bool-cases s.running) [
    | inl e ↦ rw e h
    | inr e ↦ rw e (locked-Over w.channels h)
  ]

  pub settled-Ended : (m : Dict Session) (w : Win) → Ended w → Ended (settled m w)
  settled-Ended m w h = elim (Bool-cases (is_loose w)) [
    | inl e ↦ simp e h
    | inr e ↦ simp e (followed-Ended (lookup w.parent_sid m) w h)
  ]

  pub kept-Ended :
      (m : Dict Session) (ws : List Win)
      → All Ended ws
      → All Ended (map (settled m) (keep_if (stays m) ws))
  kept-Ended m [] h = tt
  kept-Ended m (w ∷ ws) (h, hs) = elim (Bool-cases (stays m w)) [
    | inl e ↦ rw e (settled-Ended m w h, kept-Ended m ws hs)
    | inr e ↦ rw e (kept-Ended m ws hs)
  ]

  pub still_there-Ended : (now ws : List Win) → All Ended now → All Ended (still_there now ws)
  unfolding still_there
  still_there-Ended now [] h = tt
  still_there-Ended now (w ∷ ws) h = elim (Option-cases (find_node w.node now)) [
    | inl e ↦ rw (e, still_there) (still_there-Ended now ws h)
    | inr (v, e) ↦ rw (e, still_there) (All-find Ended w.node now v e h, still_there-Ended now ws h)
  ]

  inserted-Over :
      (b : Bool) (ch : Channel) (o : Option Channel)
      → ch.stream_done ≡ true
      → Over o
      → Over (if b then some ch else o)
  inserted-Over true ch o e h = e
  inserted-Over false ch o e h = h

  if-Ended : (b : Bool) (w v : Win) → Ended w → Ended v → Ended (if b then w else v)
  if-Ended true w v h k = h
  if-Ended false w v h k = k

  modified-Ended :
      (j : Text) (f : Channel → Channel) (w : Win)
      → ((ch : Channel) → (f ch).stream_done ≡ true)
      → Ended w
      → Ended (modify_channel j f w)
  unfolding modify_channel
  modified-Ended j f w k h = elim (Option-cases (lookup j w.channels)) [
    | inl e ↦ rw (e, modify_channel) h
    | inr (ch, e) ↦
        rw (e, modify_channel)
          (subst Over (sym (lookup-insert j id (f ch) w.channels))
            (inserted-Over (text_eq j id) (f ch) (lookup id w.channels) (k ch) h))
  ]

  pub end_stream-Ended : (j : Text) (w : Win) → Ended w → Ended (end_stream j w)
  unfolding end_stream terminal_done
  end_stream-Ended j w h =
      if-Ended (is_some (lookup j w.channels)) (terminal_done j w) (ended_window w)
        (modified-Ended j _ w (λ ch. marker-done (record ch { stream_done = true })) h) h

  find-Ended : (n : ℕ) (p : Page) (w : Win) → AllEnded p → window_of n p ≡ some w → Ended w
  find-Ended n p w h e =
      All-find Ended n (p.floating ++ p.panes) w e
        (All-append Ended p.floating p.panes h.on_floating h.on_panes)

  pub for-Ended : (j : Text) (p : Page) (w : Win) → AllEnded p → window_for j p ≡ some w → Ended w
  unfolding window_for
  for-Ended j p w h e = elim (Option-cases (get_shell_window_by_sid j p)) [
    | inl q ↦ elim (Option-cases (find_shell_window_by_channel_sid j p)) [
      | inl r ↦ cc (rw (q, r, window_for) at e)
      | inr (n, r) ↦ find-Ended n p w h (rw (q, r, window_for) at e)
    ]
    | inr (n, q) ↦ find-Ended n p w h (rw (q, window_for) at e)
  ]

  pub dropped :
      (j d : Text) (es : List (Text × Text))
      → ¬ (text_eq j id ≡ true)
      → keep_if (λ e. text_eq e.0 id) es ++ keep_if (λ e. text_eq e.0 id) ((j, d) ∷ [])
        ≡ keep_if (λ e. text_eq e.0 id) es
  dropped j d es k = elim (Bool-cases (text_eq j id)) [
    | inl q ↦ absurd (k q)
    | inr q ↦ rw q (append-nil (keep_if (λ e. text_eq e.0 id) es))
  ]
