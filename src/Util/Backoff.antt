-- ===== src/Util/Backoff.antt =====
-- `sseBackoffNext` of internal/webui/assets/static/js/util.js: the delay before the next reconnect.
-- `Math.floor(d * 1.5)` is exact on the integers that occur, so it is `d * 3 / 2`.
use termcp.Base.{
  ℕ, zero, suc, ◌*◌, ◌/◌, ◌≤◌, min, max, ◌≡◌, refl, arith, ◌==◌, leb, inl, inr, Bool-cases,
  if◌then◌else◌,
}

unfoldable pub sse_backoff_next : ℕ → ℕ
sse_backoff_next prev = let d = if prev == 0 then 1000 else prev in min 30000 (max 2000 (d * 3 / 2))

-- The next delay is between 2 and 30 seconds, whatever the previous one was.
pub sse_backoff_next_bounds :
    (prev : ℕ) → (2000 ≤ sse_backoff_next prev) × (sse_backoff_next prev ≤ 30000)
unfolding sse_backoff_next
sse_backoff_next_bounds prev = ground arith

-- `n` failed attempts in a row.
unfoldable pub backoff_after : ℕ → ℕ → ℕ
backoff_after zero d = d
backoff_after (suc n) d = backoff_after n (sse_backoff_next d)

backoff_step : (d : ℕ) → 2000 ≤ d → sse_backoff_next d ≡ min 30000 (d * 3 / 2)
unfolding sse_backoff_next
backoff_step d h = ground arith

backoff_seven : (d : ℕ) → 2000 ≤ d → backoff_after 7 d ≡ 30000
unfolding backoff_after
backoff_seven d h = omega (arith, backoff_step)

-- The reconnects that follow one another without a connection, seen from the far end.
pub backoff_after-suc : (n d : ℕ) → backoff_after (suc n) d ≡ sse_backoff_next (backoff_after n d)
unfolding backoff_after
backoff_after-suc zero d = refl
backoff_after-suc (suc n) d = backoff_after-suc n (sse_backoff_next d)

sse_backoff_next-top : sse_backoff_next 30000 ≡ 30000
unfolding sse_backoff_next
sse_backoff_next-top = refl

backoff_eight : (prev : ℕ) → backoff_after 8 prev ≡ 30000
unfolding backoff_after
backoff_eight prev = backoff_seven (sse_backoff_next prev) (sse_backoff_next_bounds prev).0

-- From any delay the back-off reaches its ceiling of 30 seconds within eight failures, and stays.
pub backoff_after_settles : (n prev : ℕ) → 8 ≤ n → backoff_after n prev ≡ 30000
backoff_after_settles zero prev h = absurd (omega arith)
backoff_after_settles (suc n) prev h = elim (Bool-cases (leb 8 n)) [
  | inl more ↦
      rw (backoff_after-suc n prev, backoff_after_settles n prev (ground arith))
        sse_backoff_next-top
  | inr last ↦ let e : suc n ≡ 8 = ground arith in rw e (backoff_eight prev)
]
