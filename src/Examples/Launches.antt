-- ===== src/Examples/Launches.antt =====
-- The theorems on the start of sessions at concrete windows.
use termcp.Base.{
  ℕ, true, false, none, List, [], ◌∷◌, codes, ◌≡◌, refl, arith, All, map, ◌==◌, if◌then◌else◌,
}
use termcp.Layout.{Page}
use termcp.Layout.Life.{switches}
use termcp.Launch.{Windows, all_shell_wins, new_win}
use termcp.Launch.Opening.{connecting}
use termcp.Launch.Starting.{StartOptions, Reply, failed, started, request_for, answer}
use termcp.Launch.Life.{Event, starts, closes, lays, acts}
use termcp.Launch.Tracked.{IsTracked}
use termcp.Launch.Drained.{answer_of, acts-settles}
use termcp.Launch.Failed.{Without, answer-error}
use termcp.Examples.Windows.{quiet}

abbrev pub empty_page : Page
empty_page = record {
  floating = [];
  panes = [];
  pane_active = none;
  pane_maxed = none;
  tile_mode = false;
  workspace_open = false;
  wins_hidden = false;
  z_seq = 0;
  mobile = false;
}

abbrev pub nothing_open : Windows
nothing_open = record {
  has_terminal = true;
  page = empty_page;
  viewport = record { inner_width = 1280; inner_height = 800; window_count = 0 };
  outbox = quiet;
  snapshot = [];
  last_active = [];
  requests = [];
  aborted = [];
  shell_reads = [];
  channel_requests = [];
  alerts = 0;
  toasts = 0;
  rejected = [];
}

nothing_open-IsTracked : IsTracked nothing_open
nothing_open-IsTracked = record {
  awaited = record { on_floating = tt; on_panes = tt };
  numbered = tt;
}

abbrev defaults : StartOptions
defaults = record { command = []; args = []; mode = []; name = [] }

-- Two starts, one of them twice; the second window is closed while it waits.
abbrev morning : List Event
morning =
    starts (codes "web") defaults
    ∷ starts (codes "db") defaults
    ∷ starts (codes "web") defaults
    ∷ lays (switches true)
    ∷ closes 2
    ∷ []

-- The first start succeeds, the others fail.
abbrev replies : ℕ → Reply
replies n = if n == 1 then started (codes "session-1") (codes "shell-1") else failed

acts-settles_example :
    All
      (λ w. w.placeholder ≡ false)
      (all_shell_wins
        (acts
          (map (answer_of replies) (acts morning nothing_open).requests)
          (acts morning nothing_open)).page)
acts-settles_example = acts-settles replies morning nothing_open nothing_open-IsTracked

abbrev waiting_for_web : Windows
waiting_for_web = record nothing_open {
  page = record empty_page { floating = connecting (codes "web") (new_win 1) ∷ [] };
  viewport = record { inner_width = 1280; inner_height = 800; window_count = 1 };
  requests = request_for 1 (codes "web") defaults ∷ [];
}

waiting_for_web-IsTracked : IsTracked waiting_for_web
unfolding connecting new_win
waiting_for_web-IsTracked = record {
  awaited = record { on_floating = ((refl, omega arith), tt); on_panes = tt };
  numbered = (omega arith, tt);
}

answer-error_example :
    Without 1
      (codes "web")
      waiting_for_web
      (answer 1 (started [] (codes "shell-1")) waiting_for_web)
answer-error_example =
    answer-error 1 (started [] (codes "shell-1")) waiting_for_web (codes "web")
      waiting_for_web-IsTracked refl refl
