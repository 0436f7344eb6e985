-- ===== src/Layout.antt =====
-- The windows of the page: floating, in the pane grid, maximised, minimised, full-screen.
-- internal/webui/assets/static/js/shell-windows.js with `bringShellWindowToFront` of util.js. A window
-- is named by its node. The fitting of terminals, the texts of buttons and the grid template are left
-- out. `AUTO_TILE_THRESHOLD` is 0, which turns the automatic tiling off.
pub mod Actions
pub mod Modes
pub mod Switch
pub mod Front
pub mod Resize
pub mod Tabs
pub mod Each
pub mod Laid
pub mod Life
use termcp.Base.{
  ℕ, suc, ◌+◌, ◌-◌, Bool, true, false, not, ◌||◌, ◌&&◌, Option, none, some, List, [], ◌∷◌, ◌++◌,
  map, any, keep_if, ◌==◌, if◌then◌else◌, pos, is_some,
}
use termcp.Window.{Win, Css, Rect, unset, auto_size, px, inset_viewport}

pub record Page : Type 0 where
  -- the children of the window container and of the grid, in document order
  pub floating : List Win
  pub panes : List Win
  pub pane_active : Option ℕ
  pub pane_maxed : Option ℕ
  pub tile_mode : Bool
  pub workspace_open : Bool
  pub wins_hidden : Bool
  -- `window._shellZSeq`; 0 is undefined
  pub z_seq : ℕ
  -- `isMobileViewport()`
  pub mobile : Bool

abbrev pub is_node : Option ℕ → ℕ → Bool
is_node none k = false
is_node (some n) k = k == n

unfoldable pub find_node : ℕ → List Win → Option Win
find_node n [] = none
find_node n (w ∷ ws) = if w.node == n then some w else find_node n ws

unfoldable pub drop_node : ℕ → List Win → List Win
drop_node n [] = []
drop_node n (w ∷ ws) = if w.node == n then drop_node n ws else w ∷ drop_node n ws

unfoldable pub change_node : ℕ → (Win → Win) → List Win → List Win
change_node n f [] = []
change_node n f (w ∷ ws) = (if w.node == n then f w else w) ∷ change_node n f ws

abbrev pub contains_node : ℕ → List Win → Bool
contains_node n = any λ w. w.node == n

-- `isTiledWin`.
abbrev pub is_tiled : ℕ → Page → Bool
is_tiled n p = contains_node n p.panes

-- Whatever list the window stands in.
unfoldable pub change_window : ℕ → (Win → Win) → Page → Page
unfolding change_node
change_window n f p = record p {
  floating = change_node n f p.floating;
  panes = change_node n f p.panes;
}

unfoldable pub mark_active : Option ℕ → List Win → List Win
mark_active n [] = []
mark_active n (w ∷ ws) = record w { pane_active_class = is_node n w.node } ∷ mark_active n ws

unfoldable pub set_active_pane : Option ℕ → Page → Page
unfolding mark_active
set_active_pane n p = record p { panes = mark_active n p.panes; pane_active = n }

unfoldable pub mark_maxed : Option ℕ → List Win → List Win
mark_maxed n [] = []
mark_maxed n (w ∷ ws) =
    (if w.minimized then w else record w { pane_maxed_class = is_node n w.node }) ∷ mark_maxed n ws

abbrev pub shown : List Win → List Win
shown = keep_if λ w. not w.minimized

abbrev pub first_node : List Win → Option ℕ
first_node [] = none
first_node (w ∷ ws) = some w.node

abbrev pub in_list : Option ℕ → List Win → Bool
in_list none ws = false
in_list (some n) ws = contains_node n ws

-- The maximised pane, while it is in the grid.
abbrev pub present : Option ℕ → List Win → Option ℕ
present n ws = if in_list n ws then n else none

-- An active pane has to be in the grid and not minimized.
unfoldable pub apply_pane_grid : Page → Page
unfolding mark_maxed set_active_pane
apply_pane_grid p =
    let q = record p { panes = mark_maxed (present p.pane_maxed p.panes) p.panes } in
    if in_list p.pane_active (shown p.panes)
    then q
    else set_active_pane (first_node (shown p.panes)) q

abbrev pub fullscreen_z : ℕ
fullscreen_z = 21000

unfoldable pub sink_others : ℕ → List Win → List Win
sink_others n [] = []
sink_others n (w ∷ ws) =
    (if not (w.node == n) && w.fullscreen
      then record w { z_index = some (fullscreen_z - 1) }
      else w)
    ∷ sink_others n ws

abbrev pub next_z : ℕ → ℕ
next_z z = (if z == 0 then 10050 else z) + 1

abbrev pub with_z : ℕ → Win → Win
with_z z w = record w { z_index = some z }

-- A floating window comes to the front.
unfoldable pub raise : Win → Page → Page
unfolding change_node sink_others
raise w p =
    if w.fullscreen
    then record p {
      floating = change_node w.node (with_z fullscreen_z) (sink_others w.node p.floating);
      panes = sink_others w.node p.panes;
    }
    else record p {
      floating = change_node w.node (with_z (next_z p.z_seq)) p.floating;
      z_seq = next_z p.z_seq;
    }

unfoldable pub bring_to_front : ℕ → Page → Page
unfolding raise set_active_pane find_node
bring_to_front n p =
    if is_tiled n p
    then set_active_pane (some n) p
    else elim (find_node n p.floating) [ none ↦ p | some w ↦ raise w p ]

abbrev pub as_pane : Win → Win
as_pane w = record w { float_rect = some w.rect; tiled_class = true }

unfoldable pub tile_window : ℕ → Page → Page
unfolding find_node drop_node set_active_pane
tile_window n p = if is_tiled n p then p else elim (find_node n p.floating) [
  | none ↦ p
  | some w ↦
      set_active_pane (some n)
        (record p { floating = drop_node n p.floating; panes = p.panes ++ as_pane w ∷ [] })
]

abbrev pub no_rect : Rect
no_rect = record { left = unset; top = unset; width = unset; height = unset }

abbrev pub or_rect : Option Rect → Rect
or_rect r = elim r [ none ↦ no_rect | some s ↦ s ]

abbrev pub as_floating : Win → Win
as_floating w = record w {
  tiled_class = false;
  pane_active_class = false;
  pane_maxed_class = false;
  rect = or_rect w.float_rect;
}

unfoldable pub leave_grid : ℕ → Option Win → Page → Page
unfolding drop_node bring_to_front
leave_grid n none p = p
leave_grid n (some w) p = bring_to_front n (record p {
  pane_maxed = if is_node p.pane_maxed n then none else p.pane_maxed;
  panes = drop_node n p.panes;
  floating = p.floating ++ as_floating w ∷ [];
})

unfoldable pub untile_window : ℕ → Page → Page
unfolding find_node leave_grid
untile_window n p = leave_grid n (find_node n p.panes) p

unfoldable pub tile_all : List ℕ → Page → Page
unfolding tile_window
tile_all [] p = p
tile_all (n ∷ ns) p = tile_all ns (tile_window n p)

unfoldable pub untile_all : List ℕ → Page → Page
unfolding untile_window
untile_all [] p = p
untile_all (n ∷ ns) p = untile_all ns (untile_window n p)

abbrev pub nodes : List Win → List ℕ
nodes = map λ w. w.node

-- `setLayoutMode`; true is 'tile'.
unfoldable pub set_layout_mode : Bool → Page → Page
unfolding tile_all untile_all apply_pane_grid
set_layout_mode true p =
    let tiled = tile_all (nodes p.floating ++ nodes p.panes) (record p { tile_mode = true }) in
    apply_pane_grid (record tiled { workspace_open = true })
set_layout_mode false p =
    let floated = untile_all (nodes p.panes) (record p { tile_mode = false; pane_maxed = none }) in
    record (apply_pane_grid floated) { workspace_open = false }

unfoldable pub observe : Bool → List Win → Page → Page
unfolding set_layout_mode apply_pane_grid
observe false panes p = p
observe true [] p = set_layout_mode false p
observe true (w ∷ ws) p = apply_pane_grid p

-- The observer of the grid: its last pane gone, the page floats again.
unfoldable pub grid_changed : Page → Page
unfolding observe
grid_changed p = observe p.tile_mode p.panes p
