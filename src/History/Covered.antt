-- ===== src/History/Covered.antt =====
-- A server that keeps to docs/api.md, and the loop of `bootstrapShellFullHistory` of
-- internal/webui/assets/static/js/ui-socket.js against it.
use termcp.Base.{ℕ, ◌+◌, ◌≤◌, Option, none, some, List, [], ◌∷◌, ◌++◌, ◌≡◌, ◌⊎◌, length, min, max}
use termcp.History.{Reply, Progress, display_cap, chunk}

-- A range of the output, from its first byte to the one after its last.
abbrev pub Range : Type 0
Range = ℕ × ℕ

-- The ranges follow one another from `a` to `b`, each no longer than a request may be.
abbrev pub Chain : ℕ → List Range → ℕ → Type 0
Chain a [] b = a ≡ b
Chain a ((x, y) ∷ rs) b = (x ≡ a) × (x ≤ y) × (y ≤ x + chunk) × Chain y rs b

-- The server holds the bytes from `base` up to `total`; `text` is what comes of a range on its way
-- through the text of an answer.
module _ (base total : ℕ) (text : ℕ → ℕ → List ℕ) where
  -- The start that is served, which a request before the kept bytes moves forward.
  abbrev pub served : ℕ → ℕ
  served off = min total (max off base)

  abbrev pub serve : ℕ → ℕ → Reply
  serve off size = record {
    total = some total;
    bytes = text (served off) (min total (served off + size));
    stop = some (min total (served off + size));
  }

  abbrev pub pieces : List Range → List ℕ
  pieces [] = []
  pieces ((x, y) ∷ rs) = text x y ++ pieces rs

  -- Where the loop stands: `ranges` have been asked for and written.
  record IsAt (p : Progress) : Type 0 where
    ranges : List Range
    chain : Chain base ranges (max p.off base)
    written : p.written ≡ pieces ranges
    counted : p.shown ≡ length p.written
    inside : max p.off base ≤ total
    known : (p.total ≡ none) ⊎ (p.total ≡ some total)

  -- Where the loop may end: all is asked for, or as much is written as may be shown.
  abbrev pub AtEnd : Progress → Type 0
  AtEnd p = (max p.off base ≡ total) ⊎ (display_cap ≤ length p.written)

  -- What the loop gives: ranges that follow one another from the first byte kept, what came of them on
  -- screen, in order, and an end.
  pub record IsCovered (q : Progress) : Type 0 where
    pub ranges : List Range
    pub chain : Chain base ranges (max q.off base)
    pub written : q.written ≡ pieces ranges
    pub over : AtEnd q

  abbrev Covered : Option Progress → Type 0
  Covered o = (q : Progress) × (o ≡ some q) × IsCovered q
