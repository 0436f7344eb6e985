-- ===== src/Examples/Output.antt =====
-- The download of the three bytes that are left of an output of five.
use termcp.Base.{ℕ, zero, suc, List, [], ◌∷◌}

-- Each byte of a range comes back as a question mark.
abbrev lossy : ℕ → ℕ → List ℕ
lossy zero zero = []
lossy zero (suc y) = b'?' ∷ lossy zero y
lossy (suc x) zero = []
lossy (suc x) (suc y) = lossy x y
