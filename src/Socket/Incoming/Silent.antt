-- ===== src/Socket/Incoming/Silent.antt =====
-- A shell that has ended gets no more output: internal/webui/assets/static/js/ui-socket.js.
use termcp.Base.{
  Bool, true, false, Option, none, some, List, [], ◌∷◌, Text, ◌≡◌, refl, sym, ◌∙◌, subst, All,
  All-append, text_eq, text_eq_iff, lookup, Bool-cases, Option-cases, inl, inr,
}
use termcp.Window.{Win, Channel}
use termcp.Layout.{Page}
use termcp.Sessions.{Session, session_by_id, apply_sessions_snapshot}
use termcp.Sessions.Snapshot.{apply_sessions_snapshot-windows}
use termcp.Launch.{Windows, all_shell_wins, get_shell_window_by_sid}
use termcp.Notify.{
  Notice, Board, Permission, granted, default, denied, notify_by, browser_system_notify,
  with_notified, set_window_notified, mark_sess_notified, show_ui_notify, on_approval_event,
  for_decision,
}
use termcp.Socket.Incoming.{
  Incoming, sessions, terminal, done, ui_notify, approval, other, broken, Feed, window_for,
  write_to, write_in, end_stream, done_in, registry_of, with_registry, on_message, on_messages,
}
use termcp.Socket.Incoming.Ended.{
  Over, output_of, keep_if-append, Ended, AllEnded, change-AllEnded, kept-Ended, still_there-Ended,
  end_stream-Ended, for-Ended, dropped,
}

module _ (id : Text) where
  -- The page of a feed.
  abbrev pub page_of : Feed → Page
  page_of f = f.board.desk.page

  notified-AllEnded :
      (s : Text) (on : Bool) (d : Windows)
      → AllEnded id d.page
      → AllEnded id (set_window_notified s on d).page
  unfolding set_window_notified
  notified-AllEnded s on d h = elim (Option-cases (get_shell_window_by_sid s d.page)) [
    | inl e ↦ rw (e, set_window_notified) h
    | inr (n, e) ↦
        rw (e, set_window_notified) (change-AllEnded id n (with_notified on) d.page (λ w k. k) h)
  ]

  mark-AllEnded :
      (s : Text) (b : Board)
      → AllEnded id b.desk.page
      → AllEnded id (mark_sess_notified s b).desk.page
  unfolding mark_sess_notified
  mark-AllEnded [] b h = h
  mark-AllEnded (c ∷ s) b h = notified-AllEnded (c ∷ s) true b.desk h

  notify_by-desk :
      (p : Permission) (b : Bool) (n : Notice) (d : Board) → (notify_by p b n d).desk ≡ d.desk
  notify_by-desk granted b n d = refl
  notify_by-desk default true n d = refl
  notify_by-desk default false n d = refl
  notify_by-desk denied b n d = refl

  show-AllEnded :
      (later : Bool) (n : Notice) (b : Board)
      → AllEnded id b.desk.page
      → AllEnded id (show_ui_notify later n b).desk.page
  unfolding show_ui_notify browser_system_notify
  show-AllEnded later n b h =
      subst (λ (d : Windows). AllEnded id d.page) (sym (notify_by-desk _ later n _))
        (mark-AllEnded n.session_id _ h)

  -- Nothing more for the shell, and it is over in every window.
  pub record IsSilent (f g : Feed) : Type 0 where
    pub silent : output_of id g ≡ output_of id f
    pub over : AllEnded id (page_of g)

  write_to-IsSilent :
      (j d : Text) (o : Option Channel) (f : Feed)
      → (text_eq j id ≡ true → Over o)
      → AllEnded id (page_of f)
      → IsSilent f (write_to j d o f)
  unfolding write_to
  write_to-IsSilent j d none f k h = record { silent = refl; over = h }
  write_to-IsSilent j d (some ch) f k h = elim (Bool-cases ch.stream_done) [
    | inl e ↦ rw e (record { silent = refl; over = h })
    | inr e ↦ rw e (record {
      silent =
          keep_if-append id f.written ((j, d) ∷ []) ∙ dropped id j d f.written (λ q. cc (k q, e));
      over = h;
    })
  ]

  write-IsSilent :
      (j d : Text) (o : Option Win) (f : Feed)
      → window_for j (page_of f) ≡ o
      → AllEnded id (page_of f)
      → IsSilent f (write_in j d o f)
  write-IsSilent j d none f e h = record { silent = refl; over = h }
  write-IsSilent j d (some w) f e h =
      write_to-IsSilent j d (lookup j w.channels) f
        (λ q.
          subst (λ i. Over (lookup i w.channels)) (sym ((text_eq_iff j id).0 q))
            (for-Ended id j (page_of f) w h e))
        h

  done-IsSilent :
      (j : Text) (o : Option Win) (f : Feed) → AllEnded id (page_of f) → IsSilent f (done_in j o f)
  unfolding done_in
  done-IsSilent j none f h = record { silent = refl; over = h }
  done-IsSilent j (some w) f h = record {
    silent = refl;
    over = change-AllEnded id w.node (end_stream j) (page_of f) (end_stream-Ended id j) h;
  }

  sessions-IsSilent :
      (ss : List Session) (f : Feed)
      → AllEnded id (page_of f)
      → IsSilent f (with_registry (apply_sessions_snapshot ss (registry_of f)) f)
  unfolding with_registry registry_of
  sessions-IsSilent ss f h =
      let r = registry_of f in
      let now = subst (All (Ended id)) (sym (apply_sessions_snapshot-windows ss r)) (
        kept-Ended id (session_by_id ss []) (all_shell_wins (page_of f)) (
          All-append (Ended id) (page_of f).floating (page_of f).panes h.on_floating h.on_panes)) in
      record {
        silent = refl;
        over = record {
          on_floating =
              still_there-Ended id (apply_sessions_snapshot ss r).windows (page_of f).floating now;
          on_panes =
              still_there-Ended id (apply_sessions_snapshot ss r).windows (page_of f).panes now;
        };
      }

  message-IsSilent :
      (later : Bool) (title : Text) (m : Incoming) (f : Feed)
      → AllEnded id (page_of f)
      → IsSilent f (on_message later title m f)
  unfolding on_message on_approval_event
  message-IsSilent later title (sessions ss) f h = sessions-IsSilent ss f h
  message-IsSilent later title (terminal j d) f h = write-IsSilent j d _ f refl h
  message-IsSilent later title (done j) f h = done-IsSilent j _ f h
  message-IsSilent later title (ui_notify n) f h = record {
    silent = refl;
    over = show-AllEnded later n f.board h;
  }
  message-IsSilent later title (approval n) f h = record {
    silent = refl;
    over = show-AllEnded later (for_decision title n) f.board h;
  }
  message-IsSilent later title other f h = record { silent = refl; over = h }
  message-IsSilent later title broken f h = record { silent = refl; over = h }

  -- Once a shell has ended in every window that holds it, no sequence of frames, whatever they say,
  -- writes more of its output, and it stays ended.
  pub on_messages-IsSilent :
      (later : Bool) (title : Text) (ms : List Incoming) (f : Feed)
      → AllEnded id (page_of f)
      → IsSilent f (on_messages later title ms f)
  unfolding on_messages
  on_messages-IsSilent later title [] f h = record { silent = refl; over = h }
  on_messages-IsSilent later title (m ∷ ms) f h =
      let one = message-IsSilent later title m f h in
      let rest = on_messages-IsSilent later title ms (on_message later title m f) one.over in
      record { silent = rest.silent ∙ one.silent; over = rest.over }
