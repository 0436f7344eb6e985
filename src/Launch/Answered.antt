-- ===== src/Launch/Answered.antt =====
-- The answer to a start keeps the windows and the requests in step:
-- internal/webui/assets/static/js/terminal-view.js.
use termcp.Base.{
  ℕ, Bool, true, false, Option, none, some, List, [], ◌∷◌, ◌++◌, Text, ◌≡◌, refl, sym, ◌∙◌, ap,
  subst, if◌then◌else◌, ◌==◌, ==_iff,
}
use termcp.Window.{Win}
use termcp.Layout.{change_window}
use termcp.Layout.Actions.{window_of}
use termcp.Layout.Each.{All-change_at, All-drop_at, All-absent, find_node-node, find_node-append}
use termcp.Layout.Life.Everywhere.{Holds, Everywhere}
use termcp.Sessions.{Session}
use termcp.Launch.{Windows, StartRequest, remove_node, close_window, session_of}
use termcp.Launch.Starting.{
  Reply, failed, started, request_of, without_request, finalized, finalize_pending_shell_window,
  start_failed, start_succeeded, start_answered,
}
use termcp.Launch.Identity.{window_of-Holds, create_channel_tab-Holds, seed_approval-Holds}
use termcp.Launch.Tracked.{
  reject-IsTracked, Awaits, Numbered, IsTracked, request_of-without, Numbered-without,
}
use termcp.Launch.Opened.{open_shell_window-IsTracked}

-- The windows other than those of an answered request go on as before.
others_wait :
    (n k count : ℕ) (b : Bool) (c : Text) (rs : List StartRequest)
    → (k == n) ≡ false
    → Awaits rs count k b c
    → Awaits (without_request n rs) count k b c
others_wait n k count b c rs e (q, le) =
    (request_of-without n k rs ∙ ap (λ x. if x then none else request_of k rs) e ∙ q, le)

waits :
    (b : Bool) (c a : Text) (o : Option Text)
    → o ≡ some c
    → o ≡ (if b then some a else none)
    → b ≡ true
waits true c a o e q = refl
waits false c a o e q = cc

module _ (n : ℕ) (d : Windows) (h : IsTracked d) where
  abbrev Before : Win → Type 0
  Before = Holds (Awaits d.requests d.viewport.window_count)

  abbrev After : ℕ → Bool → Text → Type 0
  After = Awaits (without_request n d.requests) d.viewport.window_count

  answered-Numbered : Numbered d.viewport.window_count (without_request n d.requests)
  answered-Numbered = Numbered-without n d.viewport.window_count d.requests h.numbered

  kept : (w : Win) → (w.node == n) ≡ false → Before w → Holds After w
  kept w e k =
      others_wait n w.node d.viewport.window_count w.placeholder w.pending_conn_name d.requests e k

  absent-Everywhere : window_of n d.page ≡ none → Everywhere After d.page
  absent-Everywhere e =
      let (a, b) = find_node-append n d.page.floating d.page.panes e in
      record {
        on_floating =
            All-absent Before (Holds After) n kept d.page.floating a h.awaited.on_floating;
        on_panes = All-absent Before (Holds After) n kept d.page.panes b h.awaited.on_panes;
      }

  removed-Everywhere : Everywhere After (remove_node n d.page)
  unfolding remove_node
  removed-Everywhere = record {
    on_floating = All-drop_at Before (Holds After) n kept d.page.floating h.awaited.on_floating;
    on_panes = All-drop_at Before (Holds After) n kept d.page.panes h.awaited.on_panes;
  }

  changed-Everywhere :
      (f : Win → Win)
      → ((w : Win) → w.node ≡ n → Before w → Holds After (f w))
      → Everywhere After (change_window n f d.page)
  unfolding change_window
  changed-Everywhere f k = record {
    on_floating =
        All-change_at Before (Holds After) n kept f d.page.floating k h.awaited.on_floating;
    on_panes = All-change_at Before (Holds After) n kept f d.page.panes k h.awaited.on_panes;
  }

  -- The page without the request.
  abbrev rest : Windows
  rest = record d { requests = without_request n d.requests }

  absent-IsTracked : window_of n d.page ≡ none → IsTracked rest
  absent-IsTracked e = record { awaited = absent-Everywhere e; numbered = answered-Numbered }

  closed-IsTracked : (w : Win) → window_of n d.page ≡ some w → IsTracked (close_window w rest)
  unfolding close_window
  closed-IsTracked w e = record {
    awaited =
        subst (λ k. Everywhere After (remove_node k d.page))
          (sym (find_node-node n (d.page.floating ++ d.page.panes) w e)) removed-Everywhere;
    numbered = answered-Numbered;
  }

  finalized-Holds :
      (label sid shell_id : Text) (o : Option Session) (w : Win)
      → w.node ≡ n
      → Before w
      → Holds After (finalized label sid shell_id o w)
  unfolding finalized
  finalized-Holds label sid shell_id o w e (q, le) = create_channel_tab-Holds After _ false _ (
      seed_approval-Holds After o _ (
        request_of-without n w.node d.requests
            ∙ ap (λ x. if x then none else request_of w.node d.requests) ((==_iff w.node n).1 e),
        le,
      ))

  finalize-IsTracked :
      (label sid shell_id : Text)
      → IsTracked (finalize_pending_shell_window n label sid shell_id rest)
  unfolding finalize_pending_shell_window
  finalize-IsTracked label sid shell_id = record {
    awaited =
        changed-Everywhere (finalized label sid shell_id (session_of sid d.snapshot))
          (finalized-Holds label sid shell_id (session_of sid d.snapshot));
    numbered = answered-Numbered;
  }

  -- The window of a request that is under way waits.
  pub waiting :
      (w : Win) (c : Text)
      → request_of n d.requests ≡ some c
      → window_of n d.page ≡ some w
      → w.placeholder ≡ true
  waiting w c q e =
      let (k, le) =
        window_of-Holds (Awaits d.requests d.viewport.window_count) n d.page w e h.awaited in
      waits w.placeholder c w.pending_conn_name (request_of n d.requests) q (
        ap (λ m. request_of m d.requests)
          (sym (find_node-node n (d.page.floating ++ d.page.panes) w e))
        ∙ k)

  start_failed-IsTracked :
      (c : Text) (o : Option Win)
      → request_of n d.requests ≡ some c
      → window_of n d.page ≡ o
      → IsTracked (start_failed o rest)
  unfolding start_failed
  start_failed-IsTracked c none q e = absent-IsTracked e
  start_failed-IsTracked c (some w) q e = rw (waiting w c q e) (closed-IsTracked w e)

  start_succeeded-IsTracked :
      (conn sid shell_id : Text) (o : Option Win)
      → window_of n d.page ≡ o
      → IsTracked (start_succeeded n conn sid shell_id o rest)
  unfolding start_succeeded
  start_succeeded-IsTracked conn sid shell_id none e =
      open_shell_window-IsTracked _ sid false rest (absent-IsTracked e)
  start_succeeded-IsTracked conn sid shell_id (some w) e = finalize-IsTracked _ sid shell_id

  pub start_answered-IsTracked :
      (conn : Text) (reply : Reply)
      → request_of n d.requests ≡ some conn
      → IsTracked (start_answered n conn reply rest)
  unfolding start_answered
  start_answered-IsTracked conn failed q =
      reject-IsTracked conn (start_failed _ rest) (start_failed-IsTracked conn _ q refl)
  start_answered-IsTracked conn (started [] shell_id) q =
      reject-IsTracked conn (start_failed _ rest) (start_failed-IsTracked conn _ q refl)
  start_answered-IsTracked conn (started (c ∷ sid) shell_id) q =
      start_succeeded-IsTracked conn (c ∷ sid) shell_id _ refl
