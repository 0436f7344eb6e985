-- ===== src/Examples/Notices.antt =====
-- The theorems on notifications and on resizing at a concrete page.
use termcp.Base.{
  true, false, not, ◌||◌, none, some, List, [], ◌∷◌, codes, ◌≡◌, refl, pos, negsuc, lookup,
}
use termcp.Layout.Resize.{
  Box, Resize, nw, begin_resize, Motion, drags, frames, lifts, loses, respond_all,
}
use termcp.Layout.Resize.Whole.{IsResized, respond_all-IsResized}
use termcp.Notify.{
  Notice, Board, default, Event, shows, closes, expires, leaves, clicks, decides, notify_all,
}
use termcp.Notify.Highlight.{highlighted, has_card, notify_all-Backed}
use termcp.Examples.Launches.{nothing_open}

abbrev pub board : Board
board = record {
  cards = [];
  next_card = 0;
  highlights = [];
  tiles = record { sid = codes "s"; notified = false } ∷ [];
  desk = nothing_open;
  names = (codes "s", (codes "web", true)) ∷ [];
  permission = default;
  system_notices = [];
  permission_asks = 0;
  review_open = [];
  panel_retries = [];
}

abbrev pub notice : Notice
notice = record {
  level = codes "fatal";
  title = [];
  message = codes "done";
  duration_seconds = some (pos 900);
  session_id = codes "s";
  open_review = false;
}

abbrev afternoon : List Event
afternoon =
    shows true notice
    ∷ decides false (codes "Review") (record notice { duration_seconds = some (negsuc 0) })
    ∷ expires 0
    ∷ leaves 0
    ∷ clicks 1
    ∷ closes 1
    ∷ shows true notice
    ∷ []

notify_all-Backed_example :
    (not (highlighted (codes "s") (notify_all afternoon board))
      || has_card (codes "s") (notify_all afternoon board))
    ≡ true
unfolding lookup
notify_all-Backed_example = notify_all-Backed (codes "s") afternoon board (λ e. cc) refl

abbrev window_box : Box
window_box = record { left = pos 80; top = pos 60; width = pos 640; height = pos 200 }

abbrev at_rest : Resize
at_rest = record {
  box = window_box;
  resizing = false;
  pointer = none;
  start_x = pos 0;
  start_y = pos 0;
  start_w = pos 0;
  start_h = pos 0;
  start_left = pos 0;
  start_top = pos 0;
  pending_w = pos 0;
  pending_h = pos 0;
  pending_left = none;
  pending_top = none;
  frame = false;
  dir_e = true;
  dir_s = true;
  captured = false;
  resizing_class = false;
  listening = false;
  sync_timer = false;
  live = true;
  fits = 0;
}

abbrev motions : List Motion
motions = drags 1 (pos 500) (negsuc 9) ∷ frames ∷ drags 2 (pos 0) (pos 0) ∷ lifts 1 ∷ loses ∷ []

respond_all-IsResized_example :
    IsResized nw window_box
      (respond_all motions (begin_resize true 0 1 (pos 80) (pos 60) nw at_rest))
respond_all-IsResized_example = respond_all-IsResized 1 (pos 80) (pos 60) nw at_rest motions
