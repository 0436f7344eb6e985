-- ===== src/Examples/Links.antt =====
-- A link that has lost its socket, and what the theorems say of it.
use termcp.Base.{
  true, false, none, some, List, [], ◌∷◌, ◌++◌, ◌≡◌, arith, codes, keys, keep_if, map,
}
use termcp.Util.Backoff.{backoff_after, backoff_after_settles}
use termcp.Window.Outbox.{watch_add}
use termcp.Socket.{
  Link, Happening, starts, opens, closes, timer_fires, happen_all, on_open, no_banner,
}
use termcp.Socket.Retry.{IsAlive, happen_all-IsAlive}
use termcp.Socket.Resubscribe.{named, live_all, on_open-sends}

abbrev waiting : Link
waiting = record {
  current = none;
  next_socket = 3;
  outbox = record { online = false; frames = []; pending = (codes "a", true) ∷ []; deletes = [] };
  retry_timer = some 1000;
  backoff = 2000;
  banner = no_banner;
  count_reads = 0;
  windows = [];
}

abbrev outage : List Happening
outage = opens 3 ∷ closes 3 ∷ timer_fires ∷ closes 4 ∷ timer_fires ∷ opens 5 ∷ []

happen_all-IsAlive_example : IsAlive (happen_all (starts ∷ outage) waiting)
happen_all-IsAlive_example = happen_all-IsAlive outage waiting

on_open-sends_example :
    ((on_open waiting).outbox.frames
      ≡ ([] ++ map watch_add (keep_if named (keys waiting.outbox.pending)))
        ++ map watch_add (keep_if named (live_all [])))
    × ((on_open waiting).outbox.pending ≡ [])
on_open-sends_example = on_open-sends waiting

backoff_after_settles_example : backoff_after 9 1000 ≡ 30000
backoff_after_settles_example = backoff_after_settles 9 1000 (omega arith)
