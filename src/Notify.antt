-- ===== src/Notify.antt =====
-- The notifications that the server pushes: `showUiNotify`, `dismissUiNotify`, `markSessNotified`
-- and `clearSessNotified` of internal/webui/assets/static/js/util.js, with the click that leads to a
-- session, and `onApprovalEvent` of approval.js. A card is named by its number.
pub mod Highlight
use termcp.Base.{
  ℕ, suc, Bool, true, false, not, ◌&&◌, ◌||◌, Option, none, some, List, [], ◌∷◌, ◌++◌, Text, Dict,
  ℤ, pos, negsuc, codes, text_eq, lookup, insert, delete, is_empty, is_some, or_text, ltb, leb,
  ◌==◌, if◌then◌else◌,
}
use termcp.Window.{Win}
use termcp.Layout.{change_window}
use termcp.Layout.Actions.{window_of}
use termcp.Launch.{Windows, get_shell_window_by_sid}
use termcp.Launch.Opening.{focus_session_window}

-- What is pushed; an absent text is empty. The duration is `none` when it is no number.
pub record Notice : Type 0 where
  pub level : Text
  pub title : Text
  pub message : Text
  pub duration_seconds : Option ℤ
  pub session_id : Text
  pub open_review : Bool

pub record Card : Type 0 where
  pub number : ℕ
  pub session : Text
  pub level : Text
  pub title : Text
  pub message : Text
  pub clickable : Bool
  pub review : Bool
  -- the seconds until it goes by itself, while its timer runs
  pub timer : Option ℕ
  pub dismissed : Bool
  -- it stands in the stack
  pub in_stack : Bool

-- A tile of the session grid.
pub record Tile : Type 0 where
  pub sid : Text
  pub notified : Bool

pub data Permission : Type 0 where
  granted default denied : Permission

pub record Board : Type 0 where
  pub cards : List Card
  pub next_card : ℕ
  -- `_uiNotifHighlights`
  pub highlights : Dict Bool
  pub tiles : List Tile
  pub desk : Windows
  -- the names and the state of the sessions in `_lastSessionsSnapshot`
  pub names : Dict (Text × Bool)
  -- the notifications of the browser: its permission, those shown and how often it was asked
  pub permission : Permission
  pub system_notices : List (Text × Text)
  pub permission_asks : ℕ
  -- the windows whose review panel is open
  pub review_open : List ℕ
  -- the sessions whose panel is tried again, 120 ms after the click
  pub panel_retries : List Text

unfoldable pub set_tile : Text → Bool → List Tile → List Tile
set_tile sid on [] = []
set_tile sid on (c ∷ cs) =
    if text_eq c.sid sid then record c { notified = on } ∷ cs else c ∷ set_tile sid on cs

abbrev pub with_notified : Bool → Win → Win
with_notified on w = record w { notified = on }

-- The window of a session with or without its highlight.
unfoldable pub set_window_notified : Text → Bool → Windows → Windows
unfolding get_shell_window_by_sid change_window
set_window_notified sid on d = elim (get_shell_window_by_sid sid d.page) [
  | none ↦ d
  | some n ↦ record d { page = change_window n (with_notified on) d.page }
]

unfoldable pub clear_sess_notified : Text → Board → Board
unfolding set_tile set_window_notified
clear_sess_notified sid b = if is_empty sid then b else record b {
  highlights = delete sid b.highlights;
  tiles = set_tile sid false b.tiles;
  desk = set_window_notified sid false b.desk;
}

unfoldable pub mark_sess_notified : Text → Board → Board
unfolding set_tile set_window_notified
mark_sess_notified sid b = if is_empty sid then b else record b {
  highlights = insert sid true b.highlights;
  tiles = set_tile sid true b.tiles;
  desk = set_window_notified sid true b.desk;
}

abbrev pub fired : Notice → Board → Board
fired n b = record b {
  system_notices = b.system_notices ++ (or_text n.title (codes "termcp"), n.message) ∷ [];
}

-- `granted_later` is how the user answers when the browser asks.
abbrev pub notify_by : Permission → Bool → Notice → Board → Board
notify_by granted granted_later n b = fired n b
notify_by default granted_later n b =
    let asked_once = record b { permission_asks = suc b.permission_asks } in
    if granted_later then fired n asked_once else asked_once
notify_by denied granted_later n b = b

unfoldable pub browser_system_notify : Bool → Notice → Board → Board
browser_system_notify granted_later n b = notify_by b.permission granted_later n b

abbrev pub known_level : Text → Bool
known_level l =
    text_eq l (codes "info")
    || text_eq l (codes "success")
    || text_eq l (codes "warn")
    || text_eq l (codes "error")

unfoldable pub level_of : Notice → Text
level_of n = if known_level n.level then n.level else codes "info"

-- Ten seconds by default, ten minutes at most.
unfoldable pub duration_of : Option ℤ → ℕ
duration_of none = 10
duration_of (some (negsuc k)) = 10
duration_of (some (pos k)) = if ltb 600 k then 600 else k

abbrev pub timer_of : ℕ → Option ℕ
timer_of d = if d == 0 then none else some (suc d)

unfoldable pub new_card : ℕ → Notice → Card
unfolding level_of duration_of
new_card k n = record {
  number = k;
  session = n.session_id;
  level = level_of n;
  title = or_text n.title (codes "termcp");
  message = n.message;
  clickable = not (is_empty n.session_id);
  review = n.open_review;
  timer = timer_of (duration_of n.duration_seconds);
  dismissed = false;
  in_stack = true;
}

unfoldable pub show_ui_notify : Bool → Notice → Board → Board
unfolding new_card mark_sess_notified browser_system_notify
show_ui_notify granted_later n b = browser_system_notify granted_later n (
    mark_sess_notified n.session_id
      (record b { cards = b.cards ++ new_card b.next_card n ∷ []; next_card = suc b.next_card }))

abbrev pub card_at : ℕ → List Card → Option Card
card_at k [] = none
card_at k (c ∷ cs) = if c.number == k then some c else card_at k cs

abbrev pub change_card : ℕ → (Card → Card) → List Card → List Card
change_card k f [] = []
change_card k f (c ∷ cs) = if c.number == k then f c ∷ cs else c ∷ change_card k f cs

abbrev pub retired : Card → Card
retired c = record c { dismissed = true; timer = none }

unfoldable pub dismiss_found : ℕ → Option Card → Board → Board
unfolding clear_sess_notified
dismiss_found k none b = b
dismiss_found k (some c) b =
    if c.dismissed
    then b
    else clear_sess_notified c.session (record b { cards = change_card k retired b.cards })

unfoldable pub dismiss_ui_notify : ℕ → Board → Board
unfolding dismiss_found
dismiss_ui_notify k b = dismiss_found k (card_at k b.cards) b

-- A dismissed card leaves the stack 200 ms later.
abbrev pub off_stack : Card → Card
off_stack c = if c.dismissed then record c { in_stack = false } else c

unfoldable pub remove_card : ℕ → Board → Board
remove_card k b = record b { cards = change_card k off_stack b.cards }

abbrev pub name_and_life : Option (Text × Bool) → Text × Bool
name_and_life none = ([], true)
name_and_life (some s) = s

abbrev is_ready : Option Win → Bool
is_ready none = false
is_ready (some w) = not w.placeholder

-- The window of the session, unless it still connects.
unfoldable pub panel_window : Text → Windows → Option ℕ
unfolding get_shell_window_by_sid
panel_window sid d = elim (get_shell_window_by_sid sid d.page) [
  | none ↦ none
  | some n ↦ if is_ready (window_of n d.page) then some n else none
]

-- `setReviewSheetOpen(w, true)`, if there is the window.
unfoldable pub open_panel : Option ℕ → Board → Board
open_panel none b = b
open_panel (some n) b = record b { review_open = b.review_open ++ n ∷ [] }

-- The first try, and the timer when it fails.
unfoldable pub open_review_panel : Text → Board → Board
unfolding panel_window open_panel
open_review_panel sid b =
    if is_some (panel_window sid b.desk)
    then open_panel (panel_window sid b.desk) b
    else record b { panel_retries = b.panel_retries ++ sid ∷ [] }

-- A timer of 120 ms runs out: the panel is tried once more.
unfoldable pub retried : List Text → Board → Board
unfolding panel_window open_panel
retried [] b = b
retried (sid ∷ rest) b = open_panel (panel_window sid b.desk) (record b { panel_retries = rest })

-- A click on a card beside its close button: `running` is the state of the session in the snapshot.
unfoldable pub open_session : Card → Text × Bool → Board → Board
unfolding dismiss_ui_notify focus_session_window open_review_panel
open_session c (name, running) b =
    let seen = dismiss_ui_notify c.number b in
    let there = record seen {
      desk = focus_session_window name c.session (not running) seen.desk;
    } in
    if c.review then open_review_panel c.session there else there

abbrev pub for_decision : Text → Notice → Notice
for_decision review_title n = record n {
  title = or_text n.title review_title;
  level = or_text n.level (codes "info");
  open_review = true;
}

-- `onApprovalEvent`: the notification leads to the decision.
unfoldable pub on_approval_event : Bool → Text → Notice → Board → Board
unfolding show_ui_notify
on_approval_event granted_later review_title n b =
    show_ui_notify granted_later (for_decision review_title n) b

pub data Event : Type 0 where
  shows : Bool → Notice → Event
  closes expires leaves clicks : ℕ → Event
  decides : Bool → Text → Notice → Event
  retries : Event

abbrev pub clicked : Option Card → Board → Board
clicked none b = b
clicked (some c) b = open_session c (name_and_life (lookup c.session b.names)) b

-- A card's timer ends if it is still running.
abbrev pub expired : ℕ → Option Card → Board → Board
expired k none b = b
expired k (some c) b = if is_some c.timer then dismiss_ui_notify k b else b

unfoldable pub notify : Event → Board → Board
unfolding show_ui_notify dismiss_ui_notify remove_card open_session on_approval_event lookup retried
notify (shows granted_later n) b = show_ui_notify granted_later n b
notify (closes k) b = dismiss_ui_notify k b
notify (expires k) b = expired k (card_at k b.cards) b
notify (leaves k) b = remove_card k b
notify (clicks k) b = clicked (card_at k b.cards) b
notify (decides granted_later title n) b = on_approval_event granted_later title n b
notify retries b = retried b.panel_retries b

unfoldable pub notify_all : List Event → Board → Board
unfolding notify
notify_all [] b = b
notify_all (e ∷ es) b = notify_all es (notify e b)
