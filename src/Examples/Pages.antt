-- ===== src/Examples/Pages.antt =====
-- A page with two floating windows, and what the theorems say of it.
use termcp.Base.{
  ◌<◌, true, false, not, is_empty, none, some, List, [], ◌∷◌, ◌++◌, map, any, codes, ◌≡◌, refl,
  arith, All,
}
use termcp.Window.{Win}
use termcp.Layout.{
  Page, nodes, set_layout_mode, bring_to_front, find_node, apply_pane_grid, in_list, shown,
}
use termcp.Layout.Modes.{views, Apart}
use termcp.Layout.Switch.{placed, paned, set_layout_mode-tiles, set_layout_mode-roundtrip}
use termcp.Layout.Front.{Under, bring_to_front-tops, apply_pane_grid-active}
use termcp.Layout.Actions.{Viewport}
use termcp.Layout.Laid.{IsLaid}
use termcp.Layout.Life.{Move, switches, maximises, minimises, escapes, hides, shows, raises, moves}
use termcp.Layout.Life.Kept.{moves-IsLaid}
use termcp.Layout.Tabs.{Words, Bar, refresh_session_tabbar}
use termcp.Layout.Tabs.Active.{IsOfFront, refresh_session_tabbar-active}
use termcp.Examples.Windows.{two_tabs}

abbrev first : Win
first = two_tabs false

abbrev second : Win
second = record first { node = 2; z_index = some 10051 }

abbrev page : Page
page = record {
  floating = first ∷ second ∷ [];
  panes = [];
  pane_active = none;
  pane_maxed = none;
  tile_mode = false;
  workspace_open = false;
  wins_hidden = false;
  z_seq = 10051;
  mobile = false;
}

abbrev tiled_page : Page
tiled_page = record page { floating = []; panes = first ∷ second ∷ []; tile_mode = true }

page-Apart : Apart (nodes page.floating)
page-Apart = ((refl, tt), (tt, tt))

set_layout_mode-tiles_example :
    ((set_layout_mode true page).floating ≡ [])
    × (views (set_layout_mode true page).panes ≡ [] ++ map paned (views page.floating))
set_layout_mode-tiles_example = set_layout_mode-tiles page page-Apart (tt, (tt, tt))

set_layout_mode-roundtrip_example :
    placed (set_layout_mode false (set_layout_mode true page)).floating ≡ placed page.floating
set_layout_mode-roundtrip_example = set_layout_mode-roundtrip page refl page-Apart

first-found : find_node first.node page.floating ≡ some first
unfolding find_node
first-found = refl

bring_to_front-tops_example :
    let q = bring_to_front 1 page in All (Under 1 q.z_seq) q.floating × (10051 < q.z_seq)
bring_to_front-tops_example =
    bring_to_front-tops page first refl first-found refl (omega arith, (omega arith, tt))

abbrev screen : Viewport
screen = record { inner_width = 1200; inner_height = 800; window_count = 2 }

abbrev mobile_page : Page
mobile_page = record page {
  mobile = true;
  floating = record first { fullscreen = true; z_index = some 21000 } ∷ [];
}

page-IsLaid : IsLaid page
page-IsLaid = record { floats = ((refl, refl, refl), ((refl, refl, refl), tt)); in_grid = tt }

abbrev day : List Move
day =
    maximises 1
    ∷ escapes
    ∷ switches true
    ∷ minimises 2
    ∷ hides
    ∷ shows
    ∷ raises 1
    ∷ switches false
    ∷ []

moves-IsLaid_example : IsLaid (moves day page)
moves-IsLaid_example = moves-IsLaid day page page-IsLaid

abbrev words : Words
words = record { connecting_word = codes "Connecting"; session_word = codes "Session" }

abbrev bar : Bar
bar = record { hidden = true; tabs = [] }

abbrev drawn_page : Page
drawn_page = record page { floating = record first { z_index = some 10040 } ∷ second ∷ [] }

refresh_session_tabbar-active_example :
    All (IsOfFront drawn_page.floating) (refresh_session_tabbar words drawn_page bar).tabs
    × (any (λ t. t.active) (refresh_session_tabbar words drawn_page bar).tabs ≡ true)
refresh_session_tabbar-active_example =
    refresh_session_tabbar-active words drawn_page bar refl ((refl, refl), ((refl, refl), tt))

-- The active pane has been minimized.
abbrev left_page : Page
left_page = record page {
  floating = [];
  panes = record first { minimized = true } ∷ second ∷ [];
  pane_active = some 1;
  tile_mode = true;
}

apply_pane_grid-active_example :
    in_list (apply_pane_grid left_page).pane_active (shown (apply_pane_grid left_page).panes)
    ≡ not (is_empty (shown left_page.panes))
apply_pane_grid-active_example = apply_pane_grid-active left_page
