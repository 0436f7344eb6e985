-- ===== src/Examples/Frames.antt =====
-- The theorem on the frames of the server at a concrete feed.
use termcp.Base.{true, false, List, [], ◌∷◌, codes, lookup, text_eq, refl}
use termcp.Window.{Win}
use termcp.Socket.Incoming.{
  Incoming, sessions, terminal, done, ui_notify, broken, Feed, on_messages,
}
use termcp.Socket.Incoming.Silent.{IsSilent, on_messages-IsSilent}
use termcp.Window.Channels.{new_channel}
use termcp.Examples.Windows.{two_tabs}
use termcp.Examples.Launches.{empty_page, nothing_open}
use termcp.Examples.Notices.{board, notice}

-- A window whose first channel has ended and whose second one has not.
abbrev half_over : Win
half_over = record (two_tabs false) {
  channels = (codes "a", new_channel true 1) ∷ (codes "b", new_channel false 2) ∷ [];
}

abbrev feed : Feed
feed = record {
  board = record board {
    desk = record nothing_open { page = record empty_page { floating = half_over ∷ [] } };
  };
  selected = [];
  written = (codes "a", codes "$ exit") ∷ [];
  rule_reads = 0;
  count_reads = 0;
  queue_reads = 0;
  errors = 0;
}

abbrev stream : List Incoming
stream =
    terminal (codes "a") (codes "late")
    ∷ terminal (codes "b") (codes "ls")
    ∷ done (codes "b")
    ∷ broken
    ∷ ui_notify notice
    ∷ sessions (
        record {
          id = codes "s";
          running = false;
          approval_need = 0;
          approval_mode = false;
          name = [];
          reason = [];
        }
        ∷ [])
    ∷ terminal (codes "a") (codes "later")
    ∷ []

on_messages-IsSilent_example :
    IsSilent (codes "a") feed (on_messages true (codes "Review") stream feed)
unfolding lookup text_eq
on_messages-IsSilent_example =
    on_messages-IsSilent (codes "a") true (codes "Review") stream feed
      (record { on_floating = (refl, tt); on_panes = tt })
