-- ===== src/Layout/Life.antt =====
-- What can happen to the windows of the page, as a sequence of events.
-- internal/webui/assets/static/js/shell-windows.js.
pub mod Kept
pub mod Everywhere
use termcp.Base.{
  ℕ, Bool, true, false, not, ◌||◌, Option, none, some, List, [], ◌∷◌, ◌++◌, map, ◌≡◌, refl, ap, sym,
  ◌∙◌, inl, inr, arith, All, if◌then◌else◌, Bool-cases, Option-cases,
}
use termcp.Window.{Win}
use termcp.Layout.{
  Page, is_node, is_tiled, find_node, change_node, change_window, set_active_pane, apply_pane_grid,
  bring_to_front, tile_window, untile_window, leave_grid, set_layout_mode, grid_changed, observe,
  in_list,
}
use termcp.Layout.Actions.{
  Viewport, minimize_found, restore_found, reopen_grid, toggled, toggle_maxed, toggle_floating_max,
  toggle_shell_window_max, first_maxed, escape_key, minimize_shell_window, restore_shell_window,
  set_hidden, hide_all_windows, show_all_windows, apply_window_viewport_mode, leave_mobile,
  viewport_changed, window_of, grid_if,
}

pub data Move : Type 0 where
  raises tiles untiles maximises minimises restores : ℕ → Move
  switches : Bool → Move
  escapes observes hides shows : Move
  resizes : Bool → Viewport → Move

unfoldable pub move : Move → Page → Page
unfolding bring_to_front tile_window untile_window toggle_shell_window_max minimize_shell_window
    restore_shell_window set_layout_mode escape_key grid_changed hide_all_windows show_all_windows
    viewport_changed
move (raises n) p = bring_to_front n p
move (tiles n) p = tile_window n p
move (untiles n) p = untile_window n p
move (maximises n) p = toggle_shell_window_max n p
move (minimises n) p = minimize_shell_window n p
move (restores n) p = restore_shell_window n p
move (switches b) p = set_layout_mode b p
move escapes p = escape_key p
move observes p = grid_changed p
move hides p = hide_all_windows p
move shows p = show_all_windows p
move (resizes mobile v) p = viewport_changed mobile v p

unfoldable pub moves : List Move → Page → Page
unfolding move
moves [] p = p
moves (m ∷ ms) p = moves ms (move m p)
