-- ===== src/Launch/Failed.antt =====
-- A start that fails, internal/webui/assets/static/js/terminal-view.js.
use termcp.Base.{
  ℕ, Option, none, some, List, [], ◌∷◌, ◌++◌, Text, ◌≡◌, refl, sym, ◌∙◌, ap, Bool-cases, inl, inr,
  ◌==◌,
}
use termcp.Window.{Win}
use termcp.Layout.{Page, find_node, drop_node}
use termcp.Layout.Actions.{window_of}
use termcp.Layout.Each.{find_node-node, find_node-append}
use termcp.Launch.{Windows, remove_node, close_window, reject}
use termcp.Launch.Starting.{
  Reply, failed, started, request_of, without_request, start_failed, start_answered, answer,
}
use termcp.Launch.Tracked.{IsTracked}
use termcp.Launch.Answered.{waiting}

-- An error, an abort, or an answer without the id of a session.
abbrev pub IsError : Reply → Type 0
IsError failed = Unit
IsError (started sid shell_id) = sid ≡ []

drop_node-absent : (n : ℕ) (ws : List Win) → find_node n ws ≡ none → drop_node n ws ≡ ws
unfolding drop_node find_node
drop_node-absent n [] e = refl
drop_node-absent n (w ∷ ws) e = elim (Bool-cases (w.node == n)) [
  | inl f ↦ cc (rw f at e)
  | inr f ↦ rw f (ap (λ vs. w ∷ vs) (drop_node-absent n ws (rw f at e)))
]

remove_node-absent : (n : ℕ) (p : Page) → window_of n p ≡ none → remove_node n p ≡ p
unfolding remove_node
remove_node-absent n p e =
    let (a, b) = find_node-append n p.floating p.panes e in
    ap (λ vs. record p { floating = vs; panes = drop_node n p.panes })
      (drop_node-absent n p.floating a)
    ∙ ap (λ vs. record p { panes = vs }) (drop_node-absent n p.panes b)

-- What an error in answer to the request of window `n` for the connection `c` leaves of the state `d`:
-- the page without the window, no request for it, one failure more for the caller to report, and the
-- same sessions, reads, alerts and toasts.
abbrev pub Without : ℕ → Text → Windows → Windows → Type 0
Without n c d e =
    (e.page ≡ remove_node n d.page)
    × (e.requests ≡ without_request n d.requests)
    × (e.snapshot ≡ d.snapshot)
    × (e.shell_reads ≡ d.shell_reads)
    × (e.alerts ≡ d.alerts)
    × (e.toasts ≡ d.toasts)
    × (e.rejected ≡ d.rejected ++ c ∷ [])

start_failed-Without :
    (n : ℕ) (d : Windows) (c : Text) (o : Option Win)
    → IsTracked d
    → request_of n d.requests ≡ some c
    → window_of n d.page ≡ o
    → Without n c d
        (reject c (start_failed o (record d { requests = without_request n d.requests })))
unfolding start_failed close_window
start_failed-Without n d c none h q e =
    (sym (remove_node-absent n d.page e), refl, refl, refl, refl, refl, refl)
start_failed-Without n d c (some w) h q e = rw (waiting n d h w c q e) (
  ap (λ k. remove_node k d.page) (find_node-node n (d.page.floating ++ d.page.panes) w e),
  refl,
  refl,
  refl,
  refl,
  refl,
  refl,
)

-- From windows and requests in step, an error in answer to the request of window `n` takes that
-- window, if it is still open, and that request away, and hands the failure to the caller once; every
-- other window stays as it is, no session is opened, and no alert or toast is shown.
pub answer-error :
    (n : ℕ) (reply : Reply) (d : Windows) (c : Text)
    → IsTracked d
    → request_of n d.requests ≡ some c
    → IsError reply
    → Without n c d (answer n reply d)
unfolding answer start_answered
answer-error n failed d c h q e = rw (q, answer) (start_failed-Without n d c _ h q refl)
answer-error n (started [] shell_id) d c h q e =
    rw (q, answer) (start_failed-Without n d c _ h q refl)
answer-error n (started (a ∷ sid) shell_id) d c h q e = cc
