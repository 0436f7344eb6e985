-- ===== src/Socket/Retry.antt =====
-- The reconnect loop of internal/webui/assets/static/js/ui-socket.js.
use termcp.Base.{
  ℕ, zero, suc, ◌≤◌, true, false, Option, none, some, List, [], ◌∷◌, ◌≡◌, refl, ap, subst, sym, ◌∙◌,
  inl, inr, arith, Bool-cases, ==_self, is_some,
}
use termcp.Util.Backoff.{sse_backoff_next, sse_backoff_next_bounds, backoff_after}
use termcp.Socket.{
  Link, Happening, starts, opens, closes, timer_fires, happen, happen_all, connect_ui_web_socket,
  start_ui_web_socket, on_open, on_close, is_current, or_default, schedule_retry, offline, offline,
  on_timer,
}

-- One socket or one timer, never both and never none.
abbrev pub Awaits : Option ℕ → Option ℕ → Type 0
Awaits (some c) none = Unit
Awaits none (some delay) = (1000 ≤ delay) × (delay ≤ 30000)
Awaits (some c) (some delay) = ⊥
Awaits none none = ⊥

-- The delay of the timer, and the next one, are between one and thirty seconds.
pub record IsAlive (l : Link) : Type 0 where
  pub awaits : Awaits l.current l.retry_timer
  pub backoff_low : 1000 ≤ l.backoff
  pub backoff_high : l.backoff ≤ 30000

connect-IsAlive :
    (l : Link) → 1000 ≤ l.backoff → l.backoff ≤ 30000 → IsAlive (connect_ui_web_socket l)
unfolding connect_ui_web_socket
connect-IsAlive l low high = record { awaits = tt; backoff_low = low; backoff_high = high }

start-IsAlive : (l : Link) → IsAlive (start_ui_web_socket l)
unfolding start_ui_web_socket
start-IsAlive l = connect-IsAlive (record l { backoff = 1000 }) (omega arith) (omega arith)

or_default-bounds : (n : ℕ) → 1000 ≤ n → n ≤ 30000 → (1000 ≤ or_default n) × (or_default n ≤ 30000)
or_default-bounds n low high = ground arith

schedule_retry-IsAlive :
    (l : Link)
    → l.current ≡ none
    → 1000 ≤ l.backoff
    → l.backoff ≤ 30000
    → IsAlive (schedule_retry l)
unfolding schedule_retry
schedule_retry-IsAlive l e low high = record {
  awaits = rw e (or_default-bounds l.backoff low high);
  backoff_low = ground (arith, sse_backoff_next_bounds (or_default l.backoff));
  backoff_high = (sse_backoff_next_bounds (or_default l.backoff)).1;
}

on_open-IsAlive : (l : Link) → IsAlive l → IsAlive (on_open l)
unfolding on_open
on_open-IsAlive l v = record {
  awaits = v.awaits;
  backoff_low = omega arith;
  backoff_high = omega arith;
}

-- The timer is not running while a socket is current.
current-no_timer : (c t : Option ℕ) (g : ℕ) → Awaits c t → is_current g c ≡ true → t ≡ none
current-no_timer none t g a e = absurd (ground arith)
current-no_timer (some c) none g a e = refl
current-no_timer (some c) (some d) g a e = absurd a

on_close-IsAlive : (g : ℕ) (l : Link) → IsAlive l → IsAlive (on_close g l)
unfolding on_close
on_close-IsAlive g l v = elim (Bool-cases (is_current g l.current)) [
  | inl e ↦
      rw (e, current-no_timer l.current l.retry_timer g v.awaits e)
        (schedule_retry-IsAlive (record l { current = none; outbox = offline l.outbox }) refl
          v.backoff_low v.backoff_high)
  | inr e ↦ rw e v
]

on_timer-IsAlive : (t : Option ℕ) (l : Link) → IsAlive l → IsAlive (on_timer t l)
unfolding on_timer
on_timer-IsAlive none l v = v
on_timer-IsAlive (some d) l v = connect-IsAlive l v.backoff_low v.backoff_high

happen-IsAlive : (h : Happening) (l : Link) → IsAlive l → IsAlive (happen h l)
unfolding happen
happen-IsAlive starts l v = start-IsAlive l
happen-IsAlive (opens g) l v = elim (Bool-cases (is_current g l.current)) [
  | inl e ↦ rw e (on_open-IsAlive l v)
  | inr e ↦ rw e v
]
happen-IsAlive (closes g) l v = on_close-IsAlive g l v
happen-IsAlive timer_fires l v = on_timer-IsAlive l.retry_timer l v

run-IsAlive : (hs : List Happening) (l : Link) → IsAlive l → IsAlive (happen_all hs l)
unfolding happen_all
run-IsAlive [] l v = v
run-IsAlive (h ∷ hs) l v = run-IsAlive hs (happen h l) (happen-IsAlive h l v)

-- However sockets open, close and time out after the page has started its socket, from any state at
-- all, the page has a current socket or waits for a reconnect, and not both; the delay it waits and
-- the next delay are between one and thirty seconds.
pub happen_all-IsAlive : (hs : List Happening) (l : Link) → IsAlive (happen_all (starts ∷ hs) l)
unfolding happen_all happen
happen_all-IsAlive hs l = run-IsAlive hs (start_ui_web_socket l) (start-IsAlive l)

-- A handler of a socket that the page has replaced changes nothing.
pub happen-stale :
    (g : ℕ) (l : Link)
    → is_current g l.current ≡ false
    → (happen (opens g) l ≡ l) × (happen (closes g) l ≡ l)
unfolding happen on_close
happen-stale g l e = (rw e refl, rw e refl)

-- The timer fires and the socket it makes closes.
unfoldable pub fail_once : Link → Link
fail_once l = happen (closes l.next_socket) (happen timer_fires l)

-- A server that cannot be reached, `n` times.
unfoldable pub fail_all : ℕ → Link → Link
fail_all zero l = l
fail_all (suc n) l = fail_all n (fail_once l)

after_failure : Link → Link
after_failure l = happen (closes l.next_socket) (connect_ui_web_socket l)

fail_once-connects : (l : Link) (d : ℕ) → l.retry_timer ≡ some d → fail_once l ≡ after_failure l
unfolding fail_once after_failure happen on_timer
fail_once-connects l d e = ap (λ t. on_close l.next_socket (on_timer t l)) e

after_failure-waits :
    (l : Link)
    → ((after_failure l).retry_timer ≡ some (or_default l.backoff))
      × ((after_failure l).backoff ≡ sse_backoff_next (or_default l.backoff))
unfolding after_failure happen on_close connect_ui_web_socket schedule_retry
after_failure-waits l = rw (==_self l.next_socket) (refl, refl)

fail_once-waits :
    (l : Link) (d : ℕ)
    → l.retry_timer ≡ some d
    → 1000 ≤ l.backoff
    → ((fail_once l).retry_timer ≡ some l.backoff)
      × ((fail_once l).backoff ≡ sse_backoff_next l.backoff)
fail_once-waits l d e low =
    let set : or_default l.backoff ≡ l.backoff = ground arith in
    rw (fail_once-connects l d e) (
      subst
        (λ b.
          ((after_failure l).retry_timer ≡ some b)
          × ((after_failure l).backoff ≡ sse_backoff_next b))
        set (after_failure-waits l))

-- While no connection succeeds, the waits follow the back-off: after `n` more failures the page
-- waits again, and the next delay is what `n` steps of `sseBackoffNext` make of the first.
pub fail_all-follows :
    (n : ℕ) (l : Link) (d : ℕ)
    → l.retry_timer ≡ some d
    → 1000 ≤ l.backoff
    → (is_some (fail_all n l).retry_timer ≡ true)
      × ((fail_all n l).backoff ≡ backoff_after n l.backoff)
unfolding fail_all backoff_after
fail_all-follows zero l d e low = (ap is_some e, refl)
fail_all-follows (suc n) l d e low =
    let waits = fail_once-waits l d e low in
    let next : 1000 ≤ (fail_once l).backoff =
      subst (λ b. 1000 ≤ b) (sym waits.1) (ground (arith, sse_backoff_next_bounds l.backoff)) in
    let ih = fail_all-follows n (fail_once l) l.backoff waits.0 next in
    (ih.0, ih.1 ∙ ap (backoff_after n) waits.1)
