-- ===== src/Approval.antt =====
-- internal/webui/assets/static/js/approval.js: the review queue in the browser. A `Request` is one
-- entry of `GET /api/approvals`; a field that is missing there is empty here. `Surfaces` are the
-- places of the page that show a count.
pub mod Counts
pub mod Row
pub mod Panel
use termcp.Base.{
  ℕ, ◌+◌, Bool, true, false, not, ◌||◌, ◌&&◌, Option, none, some, List, [], ◌∷◌, Text, Dict, codes,
  text_eq, lookup, insert, delete, is_empty, keep_if, ◌==◌, if◌then◌else◌,
}

pub record Request : Type 0 where
  pub id : Text
  pub session_id : Text
  pub shell_id : Text
  pub state : Text
  pub kind : Text
  pub text : Text
  pub summary : Text
  pub source : Text
  pub keys : List Text

abbrev pub is_pending : Request → Bool
is_pending r = text_eq r.state (codes "pending")

-- `counts[sid] || 0`.
unfoldable pub count_of : Text → Dict ℕ → ℕ
count_of sid counts = elim (lookup sid counts) [ none ↦ 0 | some n ↦ n ]

unfoldable pub count_request : Request → Dict ℕ → Dict ℕ
count_request r counts =
    if not (is_pending r) || is_empty r.session_id
    then counts
    else insert r.session_id (count_of r.session_id counts + 1) counts

unfoldable pub count_requests : List Request → Dict ℕ → Dict ℕ
unfolding count_request count_of
count_requests [] counts = counts
count_requests (r ∷ rs) counts = count_requests rs (count_request r counts)

-- A badge on a window's lock or on a session tab, and the badge of a session tile.
pub record Badge : Type 0 where
  pub sid : Text
  pub hidden : Bool
  pub number : ℕ
  pub has_review : Bool

pub record Surfaces : Type 0 where
  pub counts : Dict ℕ
  pub locks : List Badge
  pub tabs : List Badge
  pub tiles : List Badge

unfoldable pub paint : Dict ℕ → Badge → Badge
unfolding count_of
paint counts b =
    let n = count_of b.sid counts in
    record b { hidden = n == 0; number = n; has_review = not (n == 0) }

unfoldable pub paint_all : Dict ℕ → List Badge → List Badge
paint_all counts [] = []
paint_all counts (b ∷ bs) = paint counts b ∷ paint_all counts bs

unfoldable pub apply_approval_counts : Surfaces → Surfaces
unfolding paint_all paint
apply_approval_counts p = record p {
  locks = paint_all p.counts p.locks;
  tabs = paint_all p.counts p.tabs;
  tiles = paint_all p.counts p.tiles;
}

unfoldable pub keep_approval_counts : List Request → Surfaces → Surfaces
unfolding count_requests apply_approval_counts
keep_approval_counts rs p = apply_approval_counts (record p { counts = count_requests rs [] })

unfoldable pub clear_approval_count : Text → Surfaces → Surfaces
unfolding count_of apply_approval_counts
clear_approval_count sid p =
    if is_empty sid || count_of sid p.counts == 0
    then p
    else apply_approval_counts (record p { counts = delete sid p.counts })

-- What one window's panel lists: the requests of its session that still want a decision.
unfoldable pub queue_of : Text → List Request → List Request
queue_of parent = keep_if λ r. text_eq r.session_id parent && is_pending r
