-- ===== src/Launch/Tracked.antt =====
-- The windows that wait for a session and the requests that are under way:
-- internal/webui/assets/static/js/terminal-view.js.
use termcp.Base.{
  ℕ, suc, ◌≤◌, ◌<◌, Bool, false, none, some, List, [], ◌∷◌, ◌++◌, Text, ◌≡◌, refl, arith, All,
  Bool-cases, inl, inr, if◌then◌else◌, ◌==◌,
}
use termcp.Layout.Life.Everywhere.{Everywhere}
use termcp.Launch.{Windows, StartRequest, reject}
use termcp.Launch.Starting.{request_of, without_request}

-- What a window with number `n` and the name `c` has to do with the requests: it waits exactly when
-- there is a request for it, and then under the name of that request.
abbrev pub Awaits : List StartRequest → ℕ → ℕ → Bool → Text → Type 0
Awaits rs count n waits c = (request_of n rs ≡ (if waits then some c else none)) × (n ≤ count)

abbrev pub Numbered : ℕ → List StartRequest → Type 0
Numbered count = All λ r. r.window ≤ count

pub record IsTracked (d : Windows) : Type 0 where
  pub awaited : Everywhere (Awaits d.requests d.viewport.window_count) d.page
  pub numbered : Numbered d.viewport.window_count d.requests

-- A rejection does not concern them.
pub reject-IsTracked : (conn : Text) (d : Windows) → IsTracked d → IsTracked (reject conn d)
reject-IsTracked conn d h = record { awaited = h.awaited; numbered = h.numbered }

pub request_of-fresh :
    (n count : ℕ) (rs : List StartRequest) → Numbered count rs → count < n → request_of n rs ≡ none
request_of-fresh n count [] h lt = refl
request_of-fresh n count (r ∷ rs) (h, hs) lt = ground (arith, request_of-fresh n count rs hs lt)

pub request_of-append :
    (n : ℕ) (rs : List StartRequest) (r : StartRequest)
    → (r.window == n) ≡ false
    → request_of n (rs ++ r ∷ []) ≡ request_of n rs
request_of-append n [] r e = rw e refl
request_of-append n (q ∷ rs) r e = ground (arith, request_of-append n rs r e)

pub request_of-new :
    (rs : List StartRequest) (r : StartRequest)
    → request_of r.window rs ≡ none
    → request_of r.window (rs ++ r ∷ []) ≡ some r.ssh_config
request_of-new [] r e = ground arith
request_of-new (q ∷ rs) r e = ground (arith, request_of-new rs r)

pub request_of-without :
    (n k : ℕ) (rs : List StartRequest)
    → request_of k (without_request n rs) ≡ (if k == n then none else request_of k rs)
request_of-without n k [] = ground arith
request_of-without n k (r ∷ rs) = ground (arith, request_of-without n k rs)

pub Numbered-without :
    (n count : ℕ) (rs : List StartRequest)
    → Numbered count rs
    → Numbered count (without_request n rs)
Numbered-without n count [] h = tt
Numbered-without n count (r ∷ rs) (h, hs) = elim (Bool-cases (r.window == n)) [
  | inl e ↦ rw e (Numbered-without n count rs hs)
  | inr e ↦ rw e (h, Numbered-without n count rs hs)
]

pub Numbered-more :
    (count : ℕ) (rs : List StartRequest) → Numbered count rs → Numbered (suc count) rs
Numbered-more count [] h = tt
Numbered-more count (r ∷ rs) (h, hs) = (omega arith, Numbered-more count rs hs)
