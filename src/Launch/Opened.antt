-- ===== src/Launch/Opened.antt =====
-- Starting, opening and focusing keep the windows and the requests in step.
-- internal/webui/assets/static/js/terminal-view.js.
use termcp.Base.{
  ℕ, ◌≤◌, Bool, true, false, Option, none, some, List, [], ◌∷◌, ◌++◌, Text, ◌≡◌, refl, sym, ◌∙◌,
  subst, arith, All-append, Option-cases, inl, inr, if◌then◌else◌,
}
use termcp.Window.{Win}
use termcp.Window.Outbox.{Outbox}
use termcp.Window.Channels.{lock_window_readonly}
use termcp.Layout.{Page}
use termcp.Layout.Actions.{Viewport}
use termcp.Layout.Each.{All-weaken}
use termcp.Layout.Life.Everywhere.{Holds, Everywhere, bring_to_front-Everywhere}
use termcp.Launch.{
  Windows, StartRequest, counted, new_win, add_window, session_of, get_shell_window_by_sid,
  get_pending_shell_window_for_conn,
}
use termcp.Launch.Focus.{focus_found, on_window, lock_window, raised}
use termcp.Launch.Opening.{
  of_session, open_new, open_shell_window, focus_session_window, connecting,
  open_pending_shell_window, alerted,
}
use termcp.Launch.Starting.{StartOptions, request_for, requested, start_session_and_open_shell}
use termcp.Launch.Identity.{add_window-Everywhere, seed_approval-Holds, focus_found-Everywhere}
use termcp.Launch.Tracked.{
  reject-IsTracked, Awaits, Numbered, IsTracked, request_of-fresh, request_of-append,
  request_of-new, Numbered-more,
}

module _ (Q R : ℕ → Bool → Text → Type 0) where
  Everywhere-weaken :
      (p : Page)
      → ((n : ℕ) (b : Bool) (c : Text) → Q n b c → R n b c)
      → Everywhere Q p
      → Everywhere R p
  Everywhere-weaken p k v = record {
    on_floating =
        All-weaken (Holds Q) (Holds R) p.floating
          (λ w h. k w.node w.placeholder w.pending_conn_name h) v.on_floating;
    on_panes =
        All-weaken (Holds Q) (Holds R) p.panes (λ w h. k w.node w.placeholder w.pending_conn_name h)
          v.on_panes;
  }

-- A new page for the same requests.
pub on_page :
    (p : Page) (d : Windows)
    → IsTracked d
    → Everywhere (Awaits d.requests d.viewport.window_count) p
    → IsTracked (record d { page = p })
on_page p d h v = record { awaited = v; numbered = h.numbered }

counted-Everywhere : (d : Windows) → IsTracked d → Everywhere (Awaits d.requests (counted d)) d.page
counted-Everywhere d h = Everywhere-weaken _ _ d.page (λ n b c (e, le). (e, omega arith)) h.awaited

-- A window with a new number that does not wait.
open_new-IsTracked :
    (label sid : Text) (b : Bool) (d : Windows) → IsTracked d → IsTracked (open_new label sid b d)
unfolding open_new of_session new_win add_window
open_new-IsTracked label sid b d h = record {
  awaited =
      add_window-Everywhere (Awaits d.requests (counted d))
        (of_session label sid b (session_of sid d.snapshot)) d
        (seed_approval-Holds (Awaits d.requests (counted d)) (session_of sid d.snapshot) _ (
          request_of-fresh (counted d) d.viewport.window_count d.requests h.numbered (omega arith),
          omega arith,
        ))
        (counted-Everywhere d h);
  numbered = Numbered-more d.viewport.window_count d.requests h.numbered;
}

-- The same requests and the same count of windows.
unfoldable pub Same : Windows → Windows → Type 0
Same d e = (e.requests ≡ d.requests) × (e.viewport ≡ d.viewport)

pub on_window-Same :
    (n : ℕ) (f : Outbox × Win → Outbox × Win) (o : Option Win) (d : Windows)
    → Same d (on_window n f o d)
unfolding Same
on_window-Same n f none d = (refl, refl)
on_window-Same n f (some w) d = (refl, refl)

focus_found-Same : (n : ℕ) (b : Bool) (d : Windows) → Same d (focus_found n b d)
unfolding Same focus_found lock_window
focus_found-Same n true d =
    on_window-Same n lock_window_readonly _ (record d { page = raised n d.page })
focus_found-Same n false d = (refl, refl)

pub focus_found-requests :
    (n : ℕ) (b : Bool) (d : Windows) → (focus_found n b d).requests ≡ d.requests
unfolding Same
focus_found-requests n b d = (focus_found-Same n b d).0

pub Same-IsTracked :
    (d e : Windows)
    → Same d e
    → Everywhere (Awaits d.requests d.viewport.window_count) e.page
    → IsTracked d
    → IsTracked e
unfolding Same
Same-IsTracked d e (r, v) p h = record {
  awaited =
      subst (λ (rs : List StartRequest). Everywhere (Awaits rs e.viewport.window_count) e.page)
        (sym r)
        (subst (λ (w : Viewport). Everywhere (Awaits d.requests w.window_count) e.page) (sym v) p);
  numbered =
      subst (λ (rs : List StartRequest). Numbered e.viewport.window_count rs) (sym r)
        (subst (λ (w : Viewport). Numbered w.window_count d.requests) (sym v) h.numbered);
}

focus_found-IsTracked :
    (n : ℕ) (b : Bool) (d : Windows) → IsTracked d → IsTracked (focus_found n b d)
focus_found-IsTracked n b d h =
    Same-IsTracked d (focus_found n b d) (focus_found-Same n b d)
      (focus_found-Everywhere (Awaits d.requests d.viewport.window_count) n b d h.awaited) h

alerted-IsTracked : (d : Windows) → IsTracked d → IsTracked (alerted d)
alerted-IsTracked d h = record { awaited = h.awaited; numbered = h.numbered }

if-IsTracked :
    (b : Bool) (d e : Windows) → IsTracked d → IsTracked e → IsTracked (if b then d else e)
if-IsTracked true d e h k = h
if-IsTracked false d e h k = k

open_found-IsTracked :
    (label sid : Text) (b : Bool) (o : Option ℕ) (d : Windows)
    → IsTracked d
    → IsTracked (elim o [ some n ↦ focus_found n b d | none ↦ open_new label sid b d ])
open_found-IsTracked label sid b none d h = open_new-IsTracked label sid b d h
open_found-IsTracked label sid b (some n) d h = focus_found-IsTracked n b d h

pub open_shell_window-IsTracked :
    (label sid : Text) (b : Bool) (d : Windows)
    → IsTracked d
    → IsTracked (open_shell_window label sid b d)
unfolding open_shell_window
open_shell_window-IsTracked label sid b d h =
    if-IsTracked d.has_terminal _ (alerted d)
      (open_found-IsTracked label sid b (get_shell_window_by_sid sid d.page) d h)
      (alerted-IsTracked d h)

pub focus_session_window-IsTracked :
    (label sid : Text) (b : Bool) (d : Windows)
    → IsTracked d
    → IsTracked (focus_session_window label sid b d)
unfolding focus_session_window
focus_session_window-IsTracked label sid b d h =
    elim (Option-cases (get_shell_window_by_sid sid d.page)) [
      | inl e ↦ rw (e, focus_session_window) (open_shell_window-IsTracked label sid b d h)
      | inr (n, e) ↦ rw (e, focus_session_window) (focus_found-IsTracked n b d h)
    ]

-- A new window that waits, with its request.
pending-IsTracked :
    (conn : Text) (opt : StartOptions) (d : Windows)
    → IsTracked d
    → IsTracked (requested (some (counted d)) conn opt (add_window (connecting conn) d))
unfolding connecting new_win add_window
pending-IsTracked conn opt d h =
    let r = request_for (counted d) conn opt in
    let rs = d.requests ++ r ∷ [] in
    let none_yet =
      request_of-fresh (counted d) d.viewport.window_count d.requests h.numbered (omega arith) in
    record {
      awaited =
          add_window-Everywhere (Awaits rs (counted d)) (connecting conn) d
            (request_of-new d.requests r none_yet, omega arith)
            (Everywhere-weaken _ _ d.page
              (λ n b c (e, le). (request_of-append n d.requests r (ground arith) ∙ e, omega arith))
              h.awaited);
      numbered =
          All-append (λ (q : StartRequest). q.window ≤ counted d) d.requests (r ∷ [])
            (Numbered-more d.viewport.window_count d.requests h.numbered) (omega arith, tt);
    }

start_pending-IsTracked :
    (conn : Text) (opt : StartOptions) (b : Bool) (d : Windows)
    → IsTracked d
    → IsTracked (
        let made : Option ℕ × Windows =
          if b then (some (counted d), add_window (connecting conn) d) else (none, alerted d) in
        requested made.0 conn opt made.1)
start_pending-IsTracked conn opt true d h = pending-IsTracked conn opt d h
start_pending-IsTracked conn opt false d h =
    reject-IsTracked conn (alerted d) (alerted-IsTracked d h)

pub start-IsTracked :
    (conn : Text) (opt : StartOptions) (d : Windows)
    → IsTracked d
    → IsTracked (start_session_and_open_shell conn opt d)
unfolding start_session_and_open_shell open_pending_shell_window
start-IsTracked conn opt d h = elim (Option-cases (get_pending_shell_window_for_conn conn d.page)) [
  | inl e ↦
      rw (e, start_session_and_open_shell) (start_pending-IsTracked conn opt d.has_terminal d h)
  | inr (n, e) ↦
      rw (e, start_session_and_open_shell)
        (on_page _ d h (
          bring_to_front-Everywhere (Awaits d.requests d.viewport.window_count) n d.page h.awaited))
]
