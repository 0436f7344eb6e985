-- ===== src/Layout/Actions.antt =====
-- The buttons of a window: maximise, minimise, collapse, hide all, and the change of the viewport.
-- internal/webui/assets/static/js/shell-windows.js.
use termcp.Base.{
  ℕ, ◌+◌, ◌*◌, ◌-◌, ◌%◌, Bool, true, false, ◌||◌, Option, none, some, List, [], ◌∷◌, ◌++◌, map,
  if◌then◌else◌, pos, ℤ, min, max,
}
use termcp.Window.{Win, Css, Rect, unset, auto_size, px, inset_viewport}
use termcp.Layout.{
  Page, is_node, find_node, change_window, is_tiled, in_list, set_active_pane, apply_pane_grid,
  bring_to_front, no_rect, or_rect,
}

-- `_paneMaxedWin = (_paneMaxedWin === win) ? null : win`.
abbrev pub toggled : ℕ → Option ℕ → Option ℕ
toggled n m = if is_node m n then none else some n

abbrev pub max_rect : Rect
max_rect = record {
  left = px (pos 8);
  top = px (pos 8);
  width = inset_viewport;
  height = inset_viewport;
}

-- The floating window's part of `toggleShellWindowMax`.
unfoldable pub toggle_maxed : Win → Win
toggle_maxed w =
    if w.maxed
    then record w { maxed = false; rect = or_rect w.max_saved_rect }
    else record w { maxed = true; max_saved_rect = some w.rect; rect = max_rect }

unfoldable pub toggle_floating_max : ℕ → Option Win → Page → Page
unfolding toggle_maxed bring_to_front change_window
toggle_floating_max n none p = p
toggle_floating_max n (some w) p =
    if w.fullscreen || p.mobile then p else bring_to_front n (change_window n toggle_maxed p)

unfoldable pub toggle_shell_window_max : ℕ → Page → Page
unfolding toggle_floating_max apply_pane_grid set_active_pane find_node
toggle_shell_window_max n p =
    if is_tiled n p
    then set_active_pane (some n)
        (apply_pane_grid (record p { pane_maxed = toggled n p.pane_maxed }))
    else toggle_floating_max n (find_node n p.floating) p

-- The first maximised window that floats.
unfoldable pub first_maxed : List Win → Option ℕ
first_maxed [] = none
first_maxed (w ∷ ws) = if w.maxed then some w.node else first_maxed ws

-- The Escape key.
unfoldable pub escape_key : Page → Page
unfolding first_maxed toggle_shell_window_max apply_pane_grid
escape_key p =
    if in_list p.pane_maxed p.panes
    then apply_pane_grid (record p { pane_maxed = none })
    else elim (first_maxed p.floating) [ none ↦ p | some n ↦ toggle_shell_window_max n p ]

abbrev pub grid_if : Bool → Page → Page
grid_if tiled p = if tiled then apply_pane_grid p else p

abbrev pub window_of : ℕ → Page → Option Win
window_of n p = find_node n (p.floating ++ p.panes)

unfoldable pub minimize_found : ℕ → Option Win → Page → Page
unfolding change_window apply_pane_grid
minimize_found n none p = p
minimize_found n (some w) p =
    if w.minimized
    then p
    else grid_if (is_tiled n p) (change_window n (λ v. record v { minimized = true }) p)

unfoldable pub minimize_shell_window : ℕ → Page → Page
unfolding minimize_found find_node
minimize_shell_window n p = minimize_found n (window_of n p) p

unfoldable pub restore_found : ℕ → Option Win → Page → Page
unfolding change_window apply_pane_grid
restore_found n none p = p
restore_found n (some w) p =
    if w.minimized
    then grid_if (is_tiled n p) (change_window n (λ v. record v { minimized = false }) p)
    else p

unfoldable pub restore_shell_window : ℕ → Page → Page
unfolding restore_found find_node
restore_shell_window n p = restore_found n (window_of n p) p

-- `measured` is the height of the window on screen.
unfoldable pub collapse_shell_window : ℤ → Win → Win
collapse_shell_window measured w = if w.collapsed then w else record w {
  saved_height = elim w.rect.height as (λ c. Css) [
    | unset ↦ px measured
    | auto_size ↦ auto_size
    | px n ↦ px n
    | inset_viewport ↦ inset_viewport
  ];
  rect = record w.rect { height = auto_size };
  collapsed = true;
}

unfoldable pub expand_shell_window : Win → Win
expand_shell_window w =
    if w.collapsed
    then record w { rect = record w.rect { height = w.saved_height }; collapsed = false }
    else w

unfoldable pub set_hidden : Bool → List Win → List Win
set_hidden b [] = []
set_hidden b (w ∷ ws) = record w { hidden = b } ∷ set_hidden b ws

unfoldable pub hide_all_windows : Page → Page
unfolding set_hidden
hide_all_windows p = record p {
  wins_hidden = true;
  workspace_open = if p.tile_mode then false else p.workspace_open;
  floating = set_hidden true p.floating;
}

-- The grid opens again in tile mode.
unfoldable pub reopen_grid : Bool → Page → Page
unfolding apply_pane_grid
reopen_grid true p = apply_pane_grid (record p { workspace_open = true })
reopen_grid false p = p

unfoldable pub show_all_windows : Page → Page
unfolding set_hidden reopen_grid
show_all_windows p =
    let q = reopen_grid p.tile_mode p in
    record q {
      wins_hidden = false;
      floating = set_hidden false q.floating;
      panes = set_hidden false q.panes;
    }

-- `applyWindowViewportMode` of a window that floats.
unfoldable pub apply_window_viewport_mode : Bool → Win → Win
apply_window_viewport_mode mobile w =
    if mobile
    then record w {
      fullscreen = true;
      rect = no_rect;
      z_index = none;
      max_saved_rect = none;
      maxed = false;
    }
    else record w { fullscreen = false }

-- The size of the viewport and the count of windows opened so far.
pub record Viewport : Type 0 where
  pub inner_width : ℕ
  pub inner_height : ℕ
  pub window_count : ℕ

abbrev cascade : ℕ → ℕ → ℕ
cascade start count = max 8 (start + (count - 1) % 5 * 24)

-- `positionShellWindowFromClick(w, null)` away from the mobile layout.
unfoldable pub position_window : Viewport → Win → Win
position_window v w = record w {
  rect = record {
    left = px (pos (cascade 80 v.window_count));
    top = px (pos (cascade 60 v.window_count));
    width = px (pos (min 640 (v.inner_width - 16)));
    height = px (pos (min 480 (v.inner_height - 16)));
  };
}

-- A floating window when the page leaves the mobile layout.
unfoldable pub leave_mobile : Viewport → Win → Win
unfolding position_window
leave_mobile v w =
    let windowed = record w { fullscreen = false } in
    if w.maxed then windowed else position_window v windowed

unfoldable pub viewport_changed : Bool → Viewport → Page → Page
unfolding apply_window_viewport_mode leave_mobile
viewport_changed now v p =
    if now
    then record p { mobile = true; floating = map (apply_window_viewport_mode true) p.floating }
    else if p.mobile
    then record p { mobile = false; floating = map (leave_mobile v) p.floating }
    else p
