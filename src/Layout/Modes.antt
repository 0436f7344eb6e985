-- ===== src/Layout/Modes.antt =====
-- What a change of the layout mode keeps: `setLayoutMode` of
-- internal/webui/assets/static/js/shell-windows.js.
use termcp.Base.{
  ℕ, false, not, ◌&&◌, Option, none, some, List, [], ◌∷◌, ◌++◌, map, ◌≡◌, refl, ap, sym, ◌∙◌, inl,
  inr, All, ◌==◌, ==_self, if◌then◌else◌, Bool-cases, Option-cases,
}
use termcp.Window.{Win, Rect}
use termcp.Layout.{
  Page, is_node, find_node, drop_node, change_node, contains_node, is_tiled, mark_active,
  mark_maxed, apply_pane_grid, sink_others, with_z, raise, bring_to_front, as_pane, as_floating,
  tile_window, untile_window, leave_grid, nodes, shown, in_list,
}

-- What a list of windows is but for z order and the marks of panes.
abbrev pub view : Win → ℕ × Rect × Option Rect
view w = (w.node, w.rect, w.float_rect)

abbrev pub views : List Win → List (ℕ × Rect × Option Rect)
views = map view

views-mark_active : (n : Option ℕ) (ws : List Win) → views (mark_active n ws) ≡ views ws
unfolding mark_active
views-mark_active n [] = refl
views-mark_active n (w ∷ ws) = ap (λ r. view w ∷ r) (views-mark_active n ws)

views-mark_maxed : (n : Option ℕ) (ws : List Win) → views (mark_maxed n ws) ≡ views ws
unfolding mark_maxed
views-mark_maxed n [] = refl
views-mark_maxed n (w ∷ ws) = elim (Bool-cases w.minimized) [
  | inl e ↦ simp e (ap (λ r. view w ∷ r) (views-mark_maxed n ws))
  | inr e ↦ simp e (ap (λ r. view w ∷ r) (views-mark_maxed n ws))
]

views-with_z : (n z : ℕ) (ws : List Win) → views (change_node n (with_z z) ws) ≡ views ws
unfolding change_node
views-with_z n z [] = refl
views-with_z n z (w ∷ ws) = elim (Bool-cases (w.node == n)) [
  | inl e ↦ simp e (ap (λ r. view w ∷ r) (views-with_z n z ws))
  | inr e ↦ simp e (ap (λ r. view w ∷ r) (views-with_z n z ws))
]

views-sink_others : (n : ℕ) (ws : List Win) → views (sink_others n ws) ≡ views ws
unfolding sink_others
views-sink_others n [] = refl
views-sink_others n (w ∷ ws) = elim (Bool-cases (not (w.node == n) && w.fullscreen)) [
  | inl e ↦ simp e (ap (λ r. view w ∷ r) (views-sink_others n ws))
  | inr e ↦ simp e (ap (λ r. view w ∷ r) (views-sink_others n ws))
]

abbrev pub SameViews : Page → Page → Type 0
SameViews p q = (views p.floating ≡ views q.floating) × (views p.panes ≡ views q.panes)

raise-SameViews : (w : Win) (p : Page) → SameViews (raise w p) p
unfolding raise
raise-SameViews w p = elim (Bool-cases w.fullscreen) [
  | inl e ↦ rw e (
    views-with_z w.node 21000 (sink_others w.node p.floating) ∙ views-sink_others w.node p.floating,
    views-sink_others w.node p.panes,
  )
  | inr e ↦ rw e (views-with_z w.node _ p.floating, refl)
]

bring_to_front-SameViews : (n : ℕ) (p : Page) → SameViews (bring_to_front n p) p
unfolding bring_to_front
bring_to_front-SameViews n p = elim (Bool-cases (is_tiled n p)) [
  | inl e ↦ rw e (refl, views-mark_active (some n) p.panes)
  | inr e ↦ elim (Option-cases (find_node n p.floating)) [
    | inl f ↦ rw (e, f) (refl, refl)
    | inr (w, f) ↦ rw (e, f) (raise-SameViews w p)
  ]
]

pub apply_pane_grid-SameViews : (p : Page) → SameViews (apply_pane_grid p) p
unfolding apply_pane_grid
apply_pane_grid-SameViews p = elim (Bool-cases (in_list p.pane_active (shown p.panes))) [
  | inl e ↦ rw e (refl, views-mark_maxed _ p.panes)
  | inr e ↦ rw e (refl, views-mark_active _ (mark_maxed _ p.panes) ∙ views-mark_maxed _ p.panes)
]

abbrev pub Missing : ℕ → List ℕ → Type 0
Missing n = All (λ k. (k == n) ≡ false)

-- No two windows have one node.
abbrev pub Apart : List ℕ → Type 0
Apart [] = Unit
Apart (n ∷ ns) = Missing n ns × Apart ns

pub contains-Missing : (n : ℕ) (ws : List Win) → Missing n (nodes ws) → contains_node n ws ≡ false
contains-Missing n [] h = refl
contains-Missing n (w ∷ ws) h = rw h.0 (contains-Missing n ws h.1)

drop_node-Missing : (n : ℕ) (ws : List Win) → Missing n (nodes ws) → drop_node n ws ≡ ws
unfolding drop_node
drop_node-Missing n [] h = refl
drop_node-Missing n (w ∷ ws) h = rw h.0 (ap (λ r. w ∷ r) (drop_node-Missing n ws h.1))

pub nodes-views : (ws : List Win) → nodes ws ≡ map (λ (v : ℕ × Rect × Option Rect). v.0) (views ws)
nodes-views [] = refl
nodes-views (w ∷ ws) = ap (λ r. w.node ∷ r) (nodes-views ws)

pub same-nodes : (xs ys : List Win) → views xs ≡ views ys → nodes xs ≡ nodes ys
same-nodes xs ys e =
    nodes-views xs ∙ ap (map (λ (v : ℕ × Rect × Option Rect). v.0)) e ∙ sym (nodes-views ys)

pub views-append : (xs ys : List Win) → views (xs ++ ys) ≡ views xs ++ views ys
views-append [] ys = refl
views-append (x ∷ xs) ys = ap (λ r. view x ∷ r) (views-append xs ys)

find_first : (w : Win) (ws : List Win) → find_node w.node (w ∷ ws) ≡ some w
unfolding find_node
find_first w ws = rw (==_self w.node) refl

drop_first : (w : Win) (ws : List Win) → Missing w.node (nodes ws) → drop_node w.node (w ∷ ws) ≡ ws
unfolding drop_node
drop_first w ws apart = rw (==_self w.node) (drop_node-Missing w.node ws apart)

-- One window, the first, goes to the grid.
pub tile_first :
    (w : Win) (fs : List Win) (p : Page)
    → Missing w.node (nodes fs)
    → is_tiled w.node p ≡ false
    → let q = tile_window w.node (record p { floating = w ∷ fs }) in
      (q.floating ≡ fs) × (views q.panes ≡ views p.panes ++ view (as_pane w) ∷ [])
unfolding tile_window
tile_first w fs p apart here =
    rw (here, find_first w fs)
      (
        drop_first w fs apart,
        views-mark_active (some w.node) (p.panes ++ as_pane w ∷ [])
            ∙ views-append p.panes (as_pane w ∷ []),
      )

-- One pane, the first, leaves the grid.
pub untile_first :
    (w : Win) (ps : List Win) (p : Page)
    → Missing w.node (nodes ps)
    → let q = untile_window w.node (record p { panes = w ∷ ps }) in
      (views q.panes ≡ views ps)
      × (views q.floating ≡ views p.floating ++ view (as_floating w) ∷ [])
unfolding untile_window leave_grid
untile_first w ps p apart =
    let start = record p { panes = w ∷ ps } in
    let moved = record p {
      pane_maxed = if is_node p.pane_maxed w.node then none else p.pane_maxed;
      panes = drop_node w.node (w ∷ ps);
      floating = p.floating ++ as_floating w ∷ [];
    } in
    let leaves : untile_window w.node start ≡ bring_to_front w.node moved =
      ap (λ o. leave_grid w.node o start) (find_first w ps) in
    let b = bring_to_front-SameViews w.node moved in
    (
      ap (λ (q : Page). views q.panes) leaves ∙ b.1 ∙ ap views (drop_first w ps apart),
      ap (λ (q : Page). views q.floating) leaves
          ∙ b.0
          ∙ views-append p.floating (as_floating w ∷ []),
    )
