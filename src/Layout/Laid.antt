-- ===== src/Layout/Laid.antt =====
-- The class flags of floating windows and panes under the operations of
-- internal/webui/assets/static/js/shell-windows.js that move a window.
use termcp.Base.{
  ℕ, Bool, true, false, Option, none, some, List, [], ◌∷◌, ◌++◌, ◌≡◌, refl, inl, inr, All,
  All-append, Bool-cases, Option-cases,
}
use termcp.Window.{Win}
use termcp.Layout.Each.{All-weaken, All-drop, All-change, All-sink}
use termcp.Layout.{
  Page, is_node, is_tiled, find_node, drop_node, mark_active, set_active_pane, mark_maxed,
  apply_pane_grid, present, shown, first_node, in_list, sink_others, with_z, raise, bring_to_front,
  as_pane, as_floating, tile_window, leave_grid, untile_window, tile_all, untile_all, nodes,
  set_layout_mode,
}

-- A window of the container has no class of a pane.
abbrev pub Floats : Win → Type 0
Floats w = (w.tiled_class ≡ false) × (w.pane_active_class ≡ false) × (w.pane_maxed_class ≡ false)

-- A window of the grid is marked active exactly when it is the active pane.
abbrev pub InGrid : Option ℕ → Win → Type 0
InGrid a w = (w.tiled_class ≡ true) × (w.pane_active_class ≡ is_node a w.node)

pub record IsLaid (p : Page) : Type 0 where
  pub floats : All Floats p.floating
  pub in_grid : All (InGrid p.pane_active) p.panes

abbrev pub Tiled : Win → Type 0
Tiled w = w.tiled_class ≡ true

mark_active-InGrid :
    (a : Option ℕ) (ws : List Win) → All Tiled ws → All (InGrid a) (mark_active a ws)
unfolding mark_active
mark_active-InGrid a [] h = tt
mark_active-InGrid a (w ∷ ws) h = ((h.0, refl), mark_active-InGrid a ws h.1)

mark_maxed-InGrid :
    (a m : Option ℕ) (ws : List Win) → All (InGrid a) ws → All (InGrid a) (mark_maxed m ws)
unfolding mark_maxed
mark_maxed-InGrid a m [] h = tt
mark_maxed-InGrid a m (w ∷ ws) h = elim (Bool-cases w.minimized) [
  | inl e ↦ simp e (h.0, mark_maxed-InGrid a m ws h.1)
  | inr e ↦ simp e (h.0, mark_maxed-InGrid a m ws h.1)
]

pub InGrid-Tiled : (a : Option ℕ) (ws : List Win) → All (InGrid a) ws → All Tiled ws
InGrid-Tiled a ws = All-weaken (InGrid a) Tiled ws (λ w h. h.0)

pub set_active_pane-IsLaid :
    (a : Option ℕ) (p : Page)
    → All Floats p.floating
    → All Tiled p.panes
    → IsLaid (set_active_pane a p)
unfolding set_active_pane
set_active_pane-IsLaid a p f t = record { floats = f; in_grid = mark_active-InGrid a p.panes t }

pub apply_pane_grid-IsLaid : (p : Page) → IsLaid p → IsLaid (apply_pane_grid p)
unfolding apply_pane_grid
apply_pane_grid-IsLaid p v =
    let m = present p.pane_maxed p.panes in
    let kept = mark_maxed-InGrid p.pane_active m p.panes v.in_grid in
    elim (Bool-cases (in_list p.pane_active (shown p.panes))) [
      | inl e ↦ rw e (record { floats = v.floats; in_grid = kept })
      | inr e ↦ rw e (record {
        floats = v.floats;
        in_grid =
            mark_active-InGrid (first_node (shown p.panes)) (mark_maxed m p.panes)
              (InGrid-Tiled p.pane_active (mark_maxed m p.panes) kept);
      })
    ]

raise-IsLaid : (w : Win) (p : Page) → IsLaid p → IsLaid (raise w p)
unfolding raise
raise-IsLaid w p v = elim (Bool-cases w.fullscreen) [
  | inl e ↦ rw e (record {
    floats =
        All-change Floats w.node (with_z 21000) (sink_others w.node p.floating) (λ u h. h)
          (All-sink Floats w.node p.floating (λ z u h. h) v.floats);
    in_grid = All-sink (InGrid p.pane_active) w.node p.panes (λ z u h. h) v.in_grid;
  })
  | inr e ↦ rw e (record {
    floats = All-change Floats w.node (with_z _) p.floating (λ u h. h) v.floats;
    in_grid = v.in_grid;
  })
]

pub bring_to_front-IsLaid : (n : ℕ) (p : Page) → IsLaid p → IsLaid (bring_to_front n p)
unfolding bring_to_front
bring_to_front-IsLaid n p v = elim (Bool-cases (is_tiled n p)) [
  | inl e ↦
      rw e
        (set_active_pane-IsLaid (some n) p v.floats (InGrid-Tiled p.pane_active p.panes v.in_grid))
  | inr e ↦ elim (Option-cases (find_node n p.floating)) [
    | inl f ↦ rw (e, f) v
    | inr (w, f) ↦ rw (e, f) (raise-IsLaid w p v)
  ]
]

pub tile_window-IsLaid : (n : ℕ) (p : Page) → IsLaid p → IsLaid (tile_window n p)
unfolding tile_window
tile_window-IsLaid n p v = elim (Bool-cases (is_tiled n p)) [
  | inl e ↦ rw e v
  | inr e ↦ elim (Option-cases (find_node n p.floating)) [
    | inl f ↦ rw (e, f) v
    | inr (w, f) ↦
        rw (e, f)
          (set_active_pane-IsLaid (some n)
            (record p { floating = drop_node n p.floating; panes = p.panes ++ as_pane w ∷ [] })
            (All-drop Floats n p.floating v.floats)
            (All-append Tiled p.panes (as_pane w ∷ [])
              (InGrid-Tiled p.pane_active p.panes v.in_grid) (refl, tt)))
  ]
]

pub leave_grid-IsLaid : (n : ℕ) (o : Option Win) (p : Page) → IsLaid p → IsLaid (leave_grid n o p)
unfolding leave_grid
leave_grid-IsLaid n none p v = v
leave_grid-IsLaid n (some w) p v = bring_to_front-IsLaid n _ (record {
  floats = All-append Floats p.floating (as_floating w ∷ []) v.floats ((refl, refl, refl), tt);
  in_grid = All-drop (InGrid p.pane_active) n p.panes v.in_grid;
})

tile_all-IsLaid : (ns : List ℕ) (p : Page) → IsLaid p → IsLaid (tile_all ns p)
unfolding tile_all
tile_all-IsLaid [] p v = v
tile_all-IsLaid (n ∷ ns) p v = tile_all-IsLaid ns (tile_window n p) (tile_window-IsLaid n p v)

untile_all-IsLaid : (ns : List ℕ) (p : Page) → IsLaid p → IsLaid (untile_all ns p)
unfolding untile_all untile_window
untile_all-IsLaid [] p v = v
untile_all-IsLaid (n ∷ ns) p v =
    untile_all-IsLaid ns (untile_window n p) (leave_grid-IsLaid n (find_node n p.panes) p v)

pub set_layout_mode-IsLaid : (b : Bool) (p : Page) → IsLaid p → IsLaid (set_layout_mode b p)
unfolding set_layout_mode
set_layout_mode-IsLaid true p v =
    let start = record p { tile_mode = true } in
    let laid : IsLaid start = record { floats = v.floats; in_grid = v.in_grid } in
    let t = tile_all-IsLaid (nodes p.floating ++ nodes p.panes) start laid in
    apply_pane_grid-IsLaid _ (record { floats = t.floats; in_grid = t.in_grid })
set_layout_mode-IsLaid false p v =
    let start = record p { tile_mode = false; pane_maxed = none } in
    let laid : IsLaid start = record { floats = v.floats; in_grid = v.in_grid } in
    let t = apply_pane_grid-IsLaid _ (untile_all-IsLaid (nodes p.panes) start laid) in
    record { floats = t.floats; in_grid = t.in_grid }
