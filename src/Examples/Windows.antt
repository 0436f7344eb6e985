-- ===== src/Examples/Windows.antt =====
-- A window with two channels, `a` and the active `b`, and what the theorems say of it.
use termcp.Base.{
  Bool, true, false, not, ◌||◌, ◌&&◌, none, some, List, [], ◌∷◌, Text, ◌≡◌, ◌≢◌, refl, All, codes,
  text_eq, lookup, keys, delete, if◌then◌else◌,
}
use termcp.Window.{Win, Rect, unset}
use termcp.Window.Outbox.{Outbox}
use termcp.Window.Channels.{new_channel, close_channel_tab, is_active}
use termcp.Window.Strip.{IsStrip, elements}
use termcp.Window.Closing.{close_channel_tab-selects}
use termcp.Window.Dropped.{last_or}
use termcp.Window.Frame.{has}
use termcp.Window.Sync.{ShellInfo, sync_window_tabs, listed}
use termcp.Window.Sync.Shown.{sync_window_tabs-live}
use termcp.Window.Sync.Added.{listed_exited, listed_running, AllNamed}
use termcp.Window.Life.{Event, creates, closes, ends, syncs, locks, loads, run, IsNamed}
use termcp.Window.Life.Strips.{run-IsStrip}
use termcp.Window.Life.Marker.{AllMarked, Tells, run-Tells}
use termcp.Window.Life.Every.{Every}

abbrev a : Text
a = codes "a"

abbrev b : Text
b = codes "b"

abbrev nowhere : Rect
nowhere = record { left = unset; top = unset; width = unset; height = unset }

abbrev pub quiet : Outbox
quiet = record { online = true; frames = []; pending = []; deletes = [] }

abbrev pub two_tabs : Bool → Win
two_tabs dead = record {
  node = 1;
  sid = codes "s";
  parent_sid = codes "s";
  placeholder = false;
  conn_name = [];
  pending_conn_name = [];
  connect_abort = false;
  channels_made = true;
  channels = (a, new_channel false 1) ∷ (b, new_channel false 2) ∷ [];
  active_channel_sid = some b;
  channel_count = 2;
  channel_seq = 2;
  primary_shell_id = some a;
  tabs = elements (some b) (a ∷ b ∷ []);
  instances = elements (some b) (a ∷ b ∷ []);
  empty_shown = false;
  body_hidden = false;
  stream_done = false;
  shell_user_input_ready = true;
  read_only = dead;
  locked_readonly = dead;
  input_closed = dead;
  dead_badge_added = dead;
  approval_mode = false;
  approval_need = 0;
  notified = false;
  minimized = false;
  collapsed = false;
  hidden = false;
  fullscreen = false;
  maxed = false;
  tiled_class = false;
  pane_active_class = false;
  pane_maxed_class = false;
  rect = nowhere;
  z_index = none;
  float_rect = none;
  max_saved_rect = none;
  saved_height = unset;
}

a-named : a ≢ []
a-named e = cc

b-named : b ≢ []
b-named e = cc

two_tabs-IsStrip : (dead : Bool) → IsStrip (two_tabs dead)
unfolding text_eq lookup
two_tabs-IsStrip dead = record {
  distinct = ((refl, tt), (tt, tt));
  named = (a-named, (b-named, tt));
  tabs_shown = refl;
  instances_shown = refl;
  counted = refl;
  active_open = (new_channel false 2, refl);
}

abbrev exited : ShellInfo
exited = record { shell_id = codes "c"; id = []; running = false }

abbrev shells : List ShellInfo
shells = record { shell_id = a; id = []; running = true } ∷ exited ∷ []

shells-AllNamed : AllNamed shells
shells-AllNamed = (λ e. cc, (λ e. cc, tt))

abbrev day : List Event
day = creates (codes "c") false ∷ loads (codes "c") ∷ ends a ∷ closes b ∷ syncs shells ∷ locks ∷ []

day-IsNamed : All IsNamed day
day-IsNamed = (λ e. cc, (tt, (tt, (tt, (shells-AllNamed, (tt, tt))))))

run-IsStrip_example : IsStrip (run day (quiet, two_tabs false)).1
run-IsStrip_example = run-IsStrip day quiet (two_tabs false) day-IsNamed (two_tabs-IsStrip false)

two_tabs-AllMarked : AllMarked (two_tabs false)
two_tabs-AllMarked = (
  record { once = refl; ended = refl; kept = refl; told = refl },
  (record { once = refl; ended = refl; kept = refl; told = refl }, tt),
)

run-Tells_example :
    let u = (run day (quiet, two_tabs false)).1 in Every (Tells u.read_only) u.channels
run-Tells_example = run-Tells day quiet (two_tabs false) two_tabs-AllMarked

b-open : lookup b (two_tabs false).channels ≡ some (new_channel false 2)
unfolding lookup text_eq
b-open = refl

-- The selection moves to `a`.
close_channel_tab-selects_example :
    (close_channel_tab b (quiet, two_tabs false)).1.active_channel_sid ≡ (
      if is_active (some b) b
      then last_or none (keys (delete b (two_tabs false).channels))
      else some b)
close_channel_tab-selects_example =
    close_channel_tab-selects b quiet (two_tabs false) (new_channel false 2)
      (two_tabs-IsStrip false) b-open

-- The tab of the exited shell `c` opens.
sync_window_tabs-live_example :
    has (codes "c") (sync_window_tabs shells (quiet, two_tabs false)).1
    ≡ listed_exited (codes "c") shells
      || (listed_running (codes "c") shells && not (is_active (some a) (codes "c")))
      || (has (codes "c") (two_tabs false)
          && (is_active (some a) (codes "c") || listed (codes "c") shells))
sync_window_tabs-live_example =
    sync_window_tabs-live shells quiet (two_tabs false) (codes "c") shells-AllNamed refl
