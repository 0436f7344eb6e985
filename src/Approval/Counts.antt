-- ===== src/Approval/Counts.antt =====
-- The badges and the queue that they announce: `keepApprovalCounts`, `applyApprovalCounts` and
-- `clearApprovalCount` of internal/webui/assets/static/js/approval.js.
use termcp.Base.{
  ℕ, ◌+◌, List, [], ◌∷◌, Text, Dict, ◌≡◌, ◌≢◌, refl, ap, ◌∙◌, inl, inr, arith, text_eq, text_eq_iff,
  lookup, lookup-insert, lookup-delete, is_empty, length, All, if◌then◌else◌, Bool-cases, ◌==◌,
}
use termcp.Approval.{
  Request, is_pending, count_of, count_request, count_requests, Badge, Surfaces, paint, paint_all,
  keep_approval_counts, clear_approval_count, queue_of,
}

count_request-one :
    (r : Request) (counts : Dict ℕ) (sid : Text)
    → sid ≢ []
    → count_of sid (count_request r counts)
      ≡ count_of sid counts
        + (if is_pending r then (if text_eq r.session_id sid then 1 else 0) else 0)
unfolding count_request count_of
count_request-one r counts sid ne = ground (
  arith,
  lookup-insert r.session_id sid (count_of r.session_id counts + 1) counts,
  text_eq_iff r.session_id sid,
)

count_requests-queue :
    (rs : List Request) (counts : Dict ℕ) (sid : Text)
    → sid ≢ []
    → count_of sid (count_requests rs counts) ≡ count_of sid counts + length (queue_of sid rs)
unfolding count_requests queue_of
count_requests-queue [] counts sid ne = omega arith
count_requests-queue (r ∷ rs) counts sid ne = ground (
  arith,
  count_requests-queue rs (count_request r counts) sid ne,
  count_request-one r counts sid ne,
)

count_request-no_session :
    (r : Request) (counts : Dict ℕ) → count_of [] (count_request r counts) ≡ count_of [] counts
unfolding count_request count_of
count_request-no_session r counts = elim (Bool-cases (is_empty r.session_id)) [
  | inl e ↦ ground arith
  | inr e ↦ ground (
    arith,
    lookup-insert r.session_id [] (count_of r.session_id counts + 1) counts,
    text_eq_iff r.session_id [],
  )
]

-- A request without a session is counted for none.
count_requests-no_session :
    (rs : List Request) (counts : Dict ℕ)
    → count_of [] (count_requests rs counts) ≡ count_of [] counts
unfolding count_requests
count_requests-no_session [] counts = refl
count_requests-no_session (r ∷ rs) counts =
    count_requests-no_session rs (count_request r counts) ∙ count_request-no_session r counts

-- The rows that the panel of a session lists; a badge without a session has none.
abbrev pub rows_of : Text → List Request → ℕ
rows_of sid rs = if is_empty sid then 0 else length (queue_of sid rs)

count_requests-rows :
    (sid : Text) (rs : List Request) → count_of sid (count_requests rs []) ≡ rows_of sid rs
count_requests-rows [] rs = count_requests-no_session rs [] ∙ unfold count_of lookup in refl
count_requests-rows (c ∷ sid) rs =
    let e = count_requests-queue rs [] (c ∷ sid) (λ h. cc) in
    unfold count_of lookup in e ∙ omega arith

-- The badge says how many requests of its session wait, and is hidden when none does.
abbrev pub IsExact : List Request → Badge → Type 0
IsExact rs b = (b.number ≡ rows_of b.sid rs) × (b.hidden ≡ (rows_of b.sid rs == 0))

paint-IsExact : (rs : List Request) (b : Badge) → IsExact rs (paint (count_requests rs []) b)
unfolding paint
paint-IsExact rs b = let n = count_requests-rows b.sid rs in (n, ap (λ k. k == 0) n)

paint_all-IsExact :
    (rs : List Request) (bs : List Badge) → All (IsExact rs) (paint_all (count_requests rs []) bs)
unfolding paint_all
paint_all-IsExact rs [] = tt
paint_all-IsExact rs (b ∷ bs) = (paint-IsExact rs b, paint_all-IsExact rs bs)

-- After a read of the queue every badge on the page, on a window's lock, a session tab or a session
-- tile, shows exactly the number of rows that its session's panel would list, and is hidden exactly
-- if that panel is empty.
pub keep_approval_counts-IsExact :
    (rs : List Request) (p : Surfaces)
    → let q = keep_approval_counts rs p in
      All (IsExact rs) q.locks × All (IsExact rs) q.tabs × All (IsExact rs) q.tiles
unfolding keep_approval_counts
keep_approval_counts-IsExact rs p =
    (paint_all-IsExact rs p.locks, paint_all-IsExact rs p.tabs, paint_all-IsExact rs p.tiles)

-- Turning review off drops the count of that session and no other.
pub clear_approval_count-counts :
    (sid j : Text) (p : Surfaces)
    → sid ≢ []
    → count_of j (clear_approval_count sid p).counts
      ≡ (if text_eq sid j then 0 else count_of j p.counts)
unfolding clear_approval_count
clear_approval_count-counts [] j p ne = absurd (ne refl)
clear_approval_count-counts (c ∷ sid) j p ne =
    ground (arith, lookup-delete (c ∷ sid) j p.counts, text_eq_iff (c ∷ sid) j)
