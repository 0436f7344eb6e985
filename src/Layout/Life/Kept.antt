-- ===== src/Layout/Life/Kept.antt =====
-- The class flags of floating windows and panes under every event:
-- internal/webui/assets/static/js/shell-windows.js.
use termcp.Base.{
  subst, ℕ, Bool, true, false, ◌||◌, Option, none, some, List, [], ◌∷◌, map, ◌≡◌, refl, ap, sym,
  ◌∙◌, inl, inr, if◌then◌else◌, Bool-cases, Option-cases,
}
use termcp.Window.{Win}
use termcp.Layout.{
  Page, is_node, is_tiled, find_node, change_window, apply_pane_grid, untile_window, grid_changed,
  observe, in_list,
}
use termcp.Layout.Actions.{
  Viewport, minimize_found, restore_found, reopen_grid, toggled, toggle_maxed, toggle_floating_max,
  toggle_shell_window_max, first_maxed, escape_key, minimize_shell_window, restore_shell_window,
  set_hidden, hide_all_windows, show_all_windows, apply_window_viewport_mode, leave_mobile,
  viewport_changed, window_of, grid_if,
}
use termcp.Layout.Each.{All-change, All-map, All-set_hidden}
use termcp.Layout.Laid.{
  Floats, InGrid, IsLaid, InGrid-Tiled, set_active_pane-IsLaid, apply_pane_grid-IsLaid,
  bring_to_front-IsLaid, tile_window-IsLaid, leave_grid-IsLaid, set_layout_mode-IsLaid,
}
use termcp.Layout.Life.{
  Move, raises, tiles, untiles, maximises, minimises, restores, switches, escapes, observes, hides,
  shows, resizes, move, moves,
}

change_window-IsLaid :
    (n : ℕ) (f : Win → Win) (p : Page)
    → ((w : Win) → Floats w → Floats (f w))
    → ((w : Win) → InGrid p.pane_active w → InGrid p.pane_active (f w))
    → IsLaid p
    → IsLaid (change_window n f p)
unfolding change_window
change_window-IsLaid n f p k g v = record {
  floats = All-change Floats n f p.floating k v.floats;
  in_grid = All-change (InGrid p.pane_active) n f p.panes g v.in_grid;
}

toggle_maxed-flags :
    (w : Win)
    → ((toggle_maxed w).tiled_class ≡ w.tiled_class)
      × ((toggle_maxed w).pane_active_class ≡ w.pane_active_class)
      × ((toggle_maxed w).pane_maxed_class ≡ w.pane_maxed_class)
      × ((toggle_maxed w).node ≡ w.node)
unfolding toggle_maxed
toggle_maxed-flags w = elim (Bool-cases w.maxed) [
  | inl e ↦ simp e (refl, refl, refl, refl)
  | inr e ↦ simp e (refl, refl, refl, refl)
]

toggle_floating_max-IsLaid :
    (n : ℕ) (o : Option Win) (p : Page) → IsLaid p → IsLaid (toggle_floating_max n o p)
unfolding toggle_floating_max
toggle_floating_max-IsLaid n none p v = v
toggle_floating_max-IsLaid n (some w) p v = elim (Bool-cases (w.fullscreen || p.mobile)) [
  | inl e ↦ rw e v
  | inr e ↦ rw e (
      bring_to_front-IsLaid n (change_window n toggle_maxed p) (
        change_window-IsLaid n toggle_maxed p
          (λ u h. let (t, a, m, k) = toggle_maxed-flags u in (t ∙ h.0, a ∙ h.1, m ∙ h.2))
          (λ u h.
            let (t, a, m, k) = toggle_maxed-flags u in
            (t ∙ h.0, a ∙ h.1 ∙ ap (is_node p.pane_active) (sym k)))
          v))
]

-- The page with another choice of the maximised pane.
maxed_as : (m : Option ℕ) (p : Page) → IsLaid p → IsLaid (record p { pane_maxed = m })
maxed_as m p v = record { floats = v.floats; in_grid = v.in_grid }

toggle_shell_window_max-IsLaid :
    (n : ℕ) (p : Page) → IsLaid p → IsLaid (toggle_shell_window_max n p)
unfolding toggle_shell_window_max
toggle_shell_window_max-IsLaid n p v = elim (Bool-cases (is_tiled n p)) [
  | inl e ↦
      let q = record p { pane_maxed = toggled n p.pane_maxed } in
      let laid = apply_pane_grid-IsLaid q (maxed_as _ p v) in
      rw e (
        set_active_pane-IsLaid (some n) (apply_pane_grid q) laid.floats
          (InGrid-Tiled (apply_pane_grid q).pane_active (apply_pane_grid q).panes laid.in_grid))
  | inr e ↦ rw e (toggle_floating_max-IsLaid n (find_node n p.floating) p v)
]

escape_key-IsLaid : (p : Page) → IsLaid p → IsLaid (escape_key p)
unfolding escape_key
escape_key-IsLaid p v = elim (Bool-cases (in_list p.pane_maxed p.panes)) [
  | inl e ↦ rw e (apply_pane_grid-IsLaid (record p { pane_maxed = none }) (maxed_as none p v))
  | inr e ↦ elim (Option-cases (first_maxed p.floating)) [
    | inl f ↦ rw (e, f) v
    | inr (n, f) ↦ rw (e, f) (toggle_shell_window_max-IsLaid n p v)
  ]
]

grid_if-IsLaid : (b : Bool) (p : Page) → IsLaid p → IsLaid (grid_if b p)
grid_if-IsLaid true p v = apply_pane_grid-IsLaid p v
grid_if-IsLaid false p v = v

minimised-IsLaid :
    (b : Bool) (n : ℕ) (p : Page)
    → IsLaid p
    → IsLaid (grid_if (is_tiled n p) (change_window n (λ w. record w { minimized = b }) p))
minimised-IsLaid b n p v =
    let f = λ (w : Win). record w { minimized = b } in
    grid_if-IsLaid (is_tiled n p) (change_window n f p)
      (change_window-IsLaid n f p (λ w h. h) (λ w h. h) v)

minimize-IsLaid : (n : ℕ) (o : Option Win) (p : Page) → IsLaid p → IsLaid (minimize_found n o p)
unfolding minimize_found
minimize-IsLaid n none p v = v
minimize-IsLaid n (some w) p v = elim (Bool-cases w.minimized) [
  | inl f ↦ rw f v
  | inr f ↦ rw f (minimised-IsLaid true n p v)
]

restore-IsLaid : (n : ℕ) (o : Option Win) (p : Page) → IsLaid p → IsLaid (restore_found n o p)
unfolding restore_found
restore-IsLaid n none p v = v
restore-IsLaid n (some w) p v = elim (Bool-cases w.minimized) [
  | inl f ↦ rw f (minimised-IsLaid false n p v)
  | inr f ↦ rw f v
]

hide_all_windows-IsLaid : (p : Page) → IsLaid p → IsLaid (hide_all_windows p)
unfolding hide_all_windows
hide_all_windows-IsLaid p v = record {
  floats = All-set_hidden Floats true p.floating (λ w h. h) v.floats;
  in_grid = v.in_grid;
}

shown_again :
    (p : Page)
    → IsLaid p
    → IsLaid (record p {
      wins_hidden = false;
      floating = set_hidden false p.floating;
      panes = set_hidden false p.panes;
    })
shown_again p v = record {
  floats = All-set_hidden Floats false p.floating (λ w h. h) v.floats;
  in_grid = All-set_hidden (InGrid p.pane_active) false p.panes (λ w h. h) v.in_grid;
}

reopen_grid-IsLaid : (b : Bool) (p : Page) → IsLaid p → IsLaid (reopen_grid b p)
unfolding reopen_grid
reopen_grid-IsLaid true p v =
    apply_pane_grid-IsLaid _ (record { floats = v.floats; in_grid = v.in_grid })
reopen_grid-IsLaid false p v = v

show_all_windows-IsLaid : (p : Page) → IsLaid p → IsLaid (show_all_windows p)
unfolding show_all_windows
show_all_windows-IsLaid p v =
    shown_again (reopen_grid p.tile_mode p) (reopen_grid-IsLaid p.tile_mode p v)

leave_mobile-Floats : (s : Viewport) (w : Win) → Floats w → Floats (leave_mobile s w)
unfolding leave_mobile
leave_mobile-Floats s w h = elim (Bool-cases w.maxed) [ inl e ↦ simp e h | inr e ↦ simp e h ]

mobile_mode-Floats : (w : Win) → Floats w → Floats (apply_window_viewport_mode true w)
unfolding apply_window_viewport_mode
mobile_mode-Floats w h = h

viewport_changed-IsLaid :
    (b : Bool) (s : Viewport) (p : Page) → IsLaid p → IsLaid (viewport_changed b s p)
unfolding viewport_changed
viewport_changed-IsLaid true s p v = record {
  floats = All-map Floats (apply_window_viewport_mode true) p.floating mobile_mode-Floats v.floats;
  in_grid = v.in_grid;
}
viewport_changed-IsLaid false s p v = elim (Bool-cases p.mobile) [
  | inl e ↦ rw e (record {
    floats = All-map Floats (leave_mobile s) p.floating (leave_mobile-Floats s) v.floats;
    in_grid = v.in_grid;
  })
  | inr e ↦
      subst
        (λ b. IsLaid (
          if b then record p { mobile = false; floating = map (leave_mobile s) p.floating } else p))
        (sym e) v
]

observe-IsLaid : (b : Bool) (ws : List Win) (p : Page) → IsLaid p → IsLaid (observe b ws p)
unfolding observe
observe-IsLaid false ws p v = v
observe-IsLaid true [] p v = set_layout_mode-IsLaid false p v
observe-IsLaid true (w ∷ ws) p v = apply_pane_grid-IsLaid p v

move-IsLaid : (m : Move) (p : Page) → IsLaid p → IsLaid (move m p)
unfolding move untile_window minimize_shell_window restore_shell_window grid_changed
move-IsLaid (raises n) p v = bring_to_front-IsLaid n p v
move-IsLaid (tiles n) p v = tile_window-IsLaid n p v
move-IsLaid (untiles n) p v = leave_grid-IsLaid n (find_node n p.panes) p v
move-IsLaid (maximises n) p v = toggle_shell_window_max-IsLaid n p v
move-IsLaid (minimises n) p v = minimize-IsLaid n (window_of n p) p v
move-IsLaid (restores n) p v = restore-IsLaid n (window_of n p) p v
move-IsLaid (switches b) p v = set_layout_mode-IsLaid b p v
move-IsLaid escapes p v = escape_key-IsLaid p v
move-IsLaid observes p v = observe-IsLaid p.tile_mode p.panes p v
move-IsLaid hides p v = hide_all_windows-IsLaid p v
move-IsLaid shows p v = show_all_windows-IsLaid p v
move-IsLaid (resizes b s) p v = viewport_changed-IsLaid b s p v

-- Through any sequence of events a floating window carries no class of a pane, and a pane is marked
-- active exactly when it is the active pane.
pub moves-IsLaid : (ms : List Move) (p : Page) → IsLaid p → IsLaid (moves ms p)
unfolding moves
moves-IsLaid [] p v = v
moves-IsLaid (m ∷ ms) p v = moves-IsLaid ms (move m p) (move-IsLaid m p v)
