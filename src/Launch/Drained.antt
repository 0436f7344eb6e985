-- ===== src/Launch/Drained.antt =====
-- Once every request has been answered no window waits:
-- internal/webui/assets/static/js/terminal-view.js.
use termcp.Base.{
  ℕ, Bool, true, false, Option, none, some, List, [], ◌∷◌, Text, ◌≡◌, refl, ◌∙◌, ap, arith, All,
  All-append, Bool-cases, Option-cases, inl, inr, if◌then◌else◌, ◌==◌, any, map,
}
use termcp.Window.{Win}
use termcp.Layout.Each.{All-weaken}
use termcp.Layout.Life.Everywhere.{Holds}
use termcp.Launch.{
  Windows, StartRequest, all_shell_wins, get_shell_window_by_sid, close_window, add_window,
}
use termcp.Launch.Focus.{focus_found}
use termcp.Launch.Opening.{open_new, open_shell_window, alerted}
use termcp.Launch.Starting.{
  Reply, failed, started, request_of, without_request, start_failed, start_succeeded,
  start_answered, answer, finalize_pending_shell_window,
}
use termcp.Launch.Tracked.{Awaits, IsTracked, request_of-without}
use termcp.Launch.Opened.{focus_found-requests}
use termcp.Launch.Life.{Event, answers, act, acts}
use termcp.Launch.Settled.{acts-IsTracked}

open_found-requests :
    (label sid : Text) (b : Bool) (o : Option ℕ) (d : Windows)
    → (elim o as (λ x. Windows) [
      | some n ↦ focus_found n b d
      | none ↦ open_new label sid b d
    ]).requests
      ≡ d.requests
unfolding open_new add_window
open_found-requests label sid b none d = refl
open_found-requests label sid b (some n) d = focus_found-requests n b d

open_if-requests :
    (b : Bool) (e d : Windows)
    → e.requests ≡ d.requests
    → (if b then e else alerted d).requests ≡ d.requests
open_if-requests true e d q = q
open_if-requests false e d q = refl

open_shell_window-requests :
    (label sid : Text) (b : Bool) (d : Windows)
    → (open_shell_window label sid b d).requests ≡ d.requests
unfolding open_shell_window
open_shell_window-requests label sid b d =
    open_if-requests d.has_terminal _ d
      (open_found-requests label sid b (get_shell_window_by_sid sid d.page) d)

start_failed-requests : (o : Option Win) (d : Windows) → (start_failed o d).requests ≡ d.requests
unfolding start_failed close_window
start_failed-requests none d = refl
start_failed-requests (some w) d = elim (Bool-cases w.placeholder) [
  | inl e ↦ simp e refl
  | inr e ↦ simp e refl
]

start_succeeded-requests :
    (n : ℕ) (conn sid shell_id : Text) (o : Option Win) (d : Windows)
    → (start_succeeded n conn sid shell_id o d).requests ≡ d.requests
unfolding start_succeeded finalize_pending_shell_window
start_succeeded-requests n conn sid shell_id none d = open_shell_window-requests _ sid false d
start_succeeded-requests n conn sid shell_id (some w) d = refl

start_answered-requests :
    (n : ℕ) (conn : Text) (reply : Reply) (d : Windows)
    → (start_answered n conn reply d).requests ≡ d.requests
unfolding start_answered
start_answered-requests n conn failed d = start_failed-requests _ d
start_answered-requests n conn (started [] shell_id) d = start_failed-requests _ d
start_answered-requests n conn (started (c ∷ sid) shell_id) d =
    start_succeeded-requests n conn (c ∷ sid) shell_id _ d

gone :
    (n k : ℕ) (rs : List StartRequest)
    → request_of n rs ≡ none
    → request_of k rs ≡ (if k == n then none else request_of k rs)
gone n k rs e = ground (arith, e)

-- An answer takes the requests of its window away, and no other.
request_of-answer :
    (n k : ℕ) (reply : Reply) (d : Windows)
    → request_of k (answer n reply d).requests ≡ (if k == n then none else request_of k d.requests)
unfolding answer
request_of-answer n k reply d = elim (Option-cases (request_of n d.requests)) [
  | inl e ↦ rw (e, answer) (gone n k d.requests e)
  | inr (conn, e) ↦
      rw (e, answer)
        (ap (request_of k) (
            start_answered-requests n conn reply
              (record d { requests = without_request n d.requests }))
          ∙ request_of-without n k d.requests)
]

abbrev pub answer_of : (ℕ → Reply) → StartRequest → Event
answer_of reply r = answers r.window (reply r.window)

merged :
    (n k : ℕ) (b : Bool) (o : Option Text)
    → (if b then none else if k == n then none else o)
      ≡ (if (if n == k then true else b) then none else o)
merged n k b o = ground arith

request_of-answers :
    (reply : ℕ → Reply) (rs : List StartRequest) (k : ℕ) (d : Windows)
    → request_of k (acts (map (answer_of reply) rs) d).requests
      ≡ (if any (λ r. r.window == k) rs then none else request_of k d.requests)
unfolding acts act
request_of-answers reply [] k d = refl
request_of-answers reply (r ∷ rs) k d =
    request_of-answers reply rs k (answer r.window (reply r.window) d)
    ∙ ap (λ o. if any (λ (q : StartRequest). q.window == k) rs then none else o)
        (request_of-answer r.window k (reply r.window) d)
    ∙ merged r.window k (any (λ q. q.window == k) rs) (request_of k d.requests)

none_left :
    (k : ℕ) (rs : List StartRequest)
    → (if any (λ r. r.window == k) rs then none else request_of k rs) ≡ none
none_left k [] = refl
none_left k (r ∷ rs) = ground (arith, none_left k rs)

idle :
    (b : Bool) (c : Text) (o : Option Text)
    → o ≡ none
    → o ≡ (if b then some c else none)
    → b ≡ false
idle false c o e q = refl
idle true c o e q = cc

-- From windows and requests in step, after any events and then an answer, whichever it is, to each
-- request that is under way, no window waits for a session.
pub acts-settles :
    (reply : ℕ → Reply) (es : List Event) (d : Windows)
    → IsTracked d
    → All
        (λ w. w.placeholder ≡ false)
        (all_shell_wins (acts (map (answer_of reply) (acts es d).requests) (acts es d)).page)
acts-settles reply es d h =
    let e = acts es d in
    let f = acts (map (answer_of reply) e.requests) e in
    let tracked = acts-IsTracked (map (answer_of reply) e.requests) e (acts-IsTracked es d h) in
    let Q = Awaits f.requests f.viewport.window_count in
    All-weaken (Holds Q) (λ w. w.placeholder ≡ false) (all_shell_wins f.page)
      (λ w k.
        idle w.placeholder w.pending_conn_name (request_of w.node f.requests)
          (request_of-answers reply e.requests w.node e ∙ none_left w.node e.requests) k.0)
      (All-append (Holds Q) f.page.floating f.page.panes tracked.awaited.on_floating
        tracked.awaited.on_panes)
