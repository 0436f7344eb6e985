-- ===== src/History.antt =====
-- The download of a shell's retained output: `bootstrapShellFullHistory` of
-- internal/webui/assets/static/js/ui-socket.js. The server's answer to a range is a parameter; an
-- answer that is no number is none. The notices that end the terminal's text are not part of it.
pub mod Covered
use termcp.Base.{
  ℕ, zero, suc, ◌+◌, ◌*◌, ◌-◌, Bool, true, false, Option, none, some, List, [], ◌∷◌, ◌++◌, length,
  leb, ◌==◌, if◌then◌else◌, min,
}

-- `bytes` is what `textToBytes` makes of the text of the answer; a byte sequence that is not whole UTF-8
-- does not survive that text.
pub record Reply : Type 0 where
  pub total : Option ℕ
  pub bytes : List ℕ
  pub stop : Option ℕ

pub record Progress : Type 0 where
  pub off : ℕ
  -- none is -1
  pub total : Option ℕ
  pub shown : ℕ
  -- what has been written to the terminal
  pub written : List ℕ

abbrev pub display_cap : ℕ
display_cap = 32 * 1024 * 1024

abbrev pub chunk : ℕ
chunk = 512 * 1024

abbrev pub beginning : Progress
beginning = record { off = 0; total = none; shown = 0; written = [] }

abbrev pub or_number : Option ℕ → Option ℕ → Option ℕ
or_number none old = old
or_number (some n) old = some n

abbrev pub or_off : Option ℕ → ℕ → ℕ
or_off none off = off
or_off (some n) off = n

-- The size of the next request.
unfoldable pub next_max : Progress → ℕ
next_max p =
    min (elim p.total [ none ↦ chunk | some t ↦ min chunk (t - p.off) ]) (display_cap - p.shown)

unfoldable pub take_reply : Reply → Progress → Progress
take_reply j p = record {
  total = or_number j.total p.total;
  written = p.written ++ j.bytes;
  shown = p.shown + length j.bytes;
  off = or_off j.stop p.off;
}

-- `off >= total`, which holds when the total is unknown.
abbrev pub at_end : ℕ → Option ℕ → Bool
at_end off none = true
at_end off (some t) = leb t off

unfoldable pub is_done : ℕ → Progress → Bool
is_done before p =
    if p.off == before then true else if at_end p.off p.total then true else leb display_cap p.shown

-- Nothing more may be shown, or there is nothing to ask for.
unfoldable pub is_full : Progress → Bool
unfolding next_max
is_full p = if leb display_cap p.shown then true else next_max p == 0

-- The loop stops before its request, after it, or goes on.
unfoldable pub decide : Bool → Bool → Progress → Progress → Option Progress → Option Progress
decide full done p q rest = if full then some p else if done then some q else rest

module _ (fetch : ℕ → ℕ → Reply) where
  unfoldable pub asked : Progress → Progress
  unfolding take_reply next_max
  asked p = take_reply (fetch p.off (next_max p)) p

  -- `one`; none is that the fuel does not last.
  unfoldable pub one : ℕ → Progress → Option Progress
  unfolding asked is_full is_done decide
  one zero p = none
  one (suc fuel) p = decide (is_full p) (is_done p.off (asked p)) p (asked p) (one fuel (asked p))
