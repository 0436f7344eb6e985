-- ===== src/Layout/Switch.antt =====
-- A change of the layout mode and back: `setLayoutMode` of
-- internal/webui/assets/static/js/shell-windows.js.
use termcp.Base.{
  ℕ, true, false, Option, none, some, List, [], ◌∷◌, ◌++◌, map, ◌≡◌, refl, ap, sym, subst, ◌∙◌, inl,
  inr, Bool-cases, arith, append-nil, append_assoc, All, ◌==◌,
}
use termcp.Window.{Win, Rect}
use termcp.Layout.{
  Page, is_tiled, find_node, as_pane, as_floating, or_rect, tile_window, untile_window, tile_all,
  untile_all, nodes, set_layout_mode, apply_pane_grid,
}
use termcp.Layout.Modes.{
  view, views, apply_pane_grid-SameViews, Missing, Apart, tile_first, untile_first, same-nodes,
  contains-Missing, views-append, nodes-views,
}

abbrev View : Type 0
View = ℕ × Rect × Option Rect

-- The view of a window that has been put into the grid, and of one that has left it.
abbrev pub paned : View → View
paned v = (v.0, v.1, some v.1)

abbrev pub floated : View → View
floated v = (v.0, or_rect v.2, v.2)

Missing-snoc :
    (n : ℕ) (ps : List Win) (w : Win)
    → Missing n (nodes ps)
    → (w.node == n) ≡ false
    → Missing n (nodes (ps ++ w ∷ []))
Missing-snoc n [] w h e = (e, tt)
Missing-snoc n (q ∷ ps) w h e = (h.0, Missing-snoc n ps w h.1 e)

Free-snoc :
    (ns : List ℕ) (ps : List Win) (w : Win)
    → Missing w.node ns
    → All (λ n. Missing n (nodes ps)) ns
    → All (λ n. Missing n (nodes (ps ++ w ∷ []))) ns
Free-snoc [] ps w m h = tt
Free-snoc (n ∷ ns) ps w m h =
    let e : (w.node == n) ≡ false = ground (arith, m.0) in
    (Missing-snoc n ps w h.0 e, Free-snoc ns ps w m.1 h.1)

tile_all-views :
    (fs : List Win) (p : Page)
    → Apart (nodes fs)
    → All (λ n. Missing n (nodes p.panes)) (nodes fs)
    → let q = tile_all (nodes fs) (record p { floating = fs }) in
      (q.floating ≡ []) × (views q.panes ≡ views p.panes ++ map paned (views fs))
unfolding tile_all
tile_all-views [] p apart free = (refl, sym (append-nil (views p.panes)))
tile_all-views (w ∷ fs) p apart free =
    let q = tile_window w.node (record p { floating = w ∷ fs }) in
    let step = tile_first w fs p apart.0 (contains-Missing w.node p.panes free.0) in
    let seen : nodes q.panes ≡ nodes (p.panes ++ as_pane w ∷ []) =
      same-nodes q.panes (p.panes ++ as_pane w ∷ [])
        (step.1 ∙ sym (views-append p.panes (as_pane w ∷ []))) in
    let free' =
      subst (λ ks. All (λ n. Missing n ks) (nodes fs)) (sym seen)
        (Free-snoc (nodes fs) p.panes (as_pane w) apart.0 free.1) in
    let ih = tile_all-views fs q apart.1 free' in
    let same : record q { floating = fs } ≡ q = ap (λ f. record q { floating = f }) (sym step.0) in
    let final =
      subst
        (λ (r : Page).
          ((tile_all (nodes fs) r).floating ≡ [])
          × (views (tile_all (nodes fs) r).panes ≡ views q.panes ++ map paned (views fs)))
        same ih in
    (
      final.0,
      final.1
          ∙ ap (λ x. x ++ map paned (views fs)) step.1
          ∙ append_assoc (views p.panes) (view (as_pane w) ∷ []) (map paned (views fs)),
    )

abbrev Floats : List ℕ → List Win → Page → Type 0
Floats ns ps p =
    views (untile_all ns (record p { panes = ps })).floating
    ≡ views p.floating ++ map floated (views ps)

untile_cons :
    (ns : List ℕ) (w : Win) (ps : List Win) (p : Page)
    → nodes ps ≡ ns
    → Missing w.node ns
    → ((qs : List Win) (q : Page) → nodes qs ≡ ns → Floats ns qs q)
    → Floats (w.node ∷ ns) (w ∷ ps) p
unfolding untile_all
untile_cons ns w ps p e missing ih =
    let q = untile_window w.node (record p { panes = w ∷ ps }) in
    let step = untile_first w ps p (subst (λ ks. Missing w.node ks) (sym e) missing) in
    let rest = ih q.panes q (same-nodes q.panes ps step.0 ∙ e) in
    rest
    ∙ ap (λ x. x ++ map floated (views q.panes)) step.1
    ∙ append_assoc (views p.floating) (view (as_floating w) ∷ []) (map floated (views q.panes))
    ∙ ap (λ x. views p.floating ++ view (as_floating w) ∷ map floated x) step.0

head_or : ℕ → List ℕ → ℕ
head_or d [] = d
head_or d (x ∷ xs) = x

tail : List ℕ → List ℕ
tail [] = []
tail (x ∷ xs) = xs

untile_all-views :
    (ns : List ℕ) (ps : List Win) (p : Page) → nodes ps ≡ ns → Apart ns → Floats ns ps p
unfolding untile_all
untile_all-views [] [] p e apart = sym (append-nil (views p.floating))
untile_all-views [] (w ∷ ps) p e apart = absurd (ground (arith, e))
untile_all-views (n ∷ ns) [] p e apart = absurd (ground (arith, e))
untile_all-views (n ∷ ns) (w ∷ ps) p e apart =
    let hd : w.node ≡ n = unfold head_or in ap (head_or n) e in
    let tl : nodes ps ≡ ns = unfold tail in ap tail e in
    subst (λ k. Floats (k ∷ ns) (w ∷ ps) p) hd
      (untile_cons ns w ps p tl (subst (λ k. Missing k ns) (sym hd) apart.0)
        (λ qs q f. untile_all-views ns qs q f apart.1))

tile_all-append : (ns ms : List ℕ) (p : Page) → tile_all (ns ++ ms) p ≡ tile_all ms (tile_all ns p)
unfolding tile_all
tile_all-append [] ms p = refl
tile_all-append (n ∷ ns) ms p = tile_all-append ns ms (tile_window n p)

tile_window-none : (n : ℕ) (p : Page) → p.floating ≡ [] → tile_window n p ≡ p
unfolding tile_window find_node
tile_window-none n p e = elim (Bool-cases (is_tiled n p)) [
  | inl f ↦ rw f refl
  | inr f ↦
      let none_left : find_node n p.floating ≡ none = ap (find_node n) e in rw (f, none_left) refl
]

tile_all-none : (ns : List ℕ) (p : Page) → p.floating ≡ [] → tile_all ns p ≡ p
unfolding tile_all
tile_all-none [] p e = refl
tile_all-none (n ∷ ns) p e = ap (tile_all ns) (tile_window-none n p e) ∙ tile_all-none ns p e

views-nil : (ws : List Win) → views ws ≡ [] → ws ≡ []
views-nil [] e = refl
views-nil (w ∷ ws) e = absurd (ground (arith, e))

all_free : (ns : List ℕ) → All (λ n. Missing n []) ns
all_free [] = tt
all_free (n ∷ ns) = (tt, all_free ns)

-- Tiling moves every floating window, in order and behind the panes that are there, into the grid,
-- with its geometry kept for later; no window is lost. The windows are distinct.
pub set_layout_mode-tiles :
    (p : Page)
    → Apart (nodes p.floating)
    → All (λ n. Missing n (nodes p.panes)) (nodes p.floating)
    → ((set_layout_mode true p).floating ≡ [])
      × (views (set_layout_mode true p).panes ≡ views p.panes ++ map paned (views p.floating))
unfolding set_layout_mode
set_layout_mode-tiles p apart free =
    let start = record p { tile_mode = true } in
    let moved = tile_all-views p.floating start apart free in
    let same : tile_all (nodes p.floating ++ nodes p.panes) start
        ≡ tile_all (nodes p.floating) start =
      tile_all-append (nodes p.floating) (nodes p.panes) start
      ∙ tile_all-none (nodes p.panes) (tile_all (nodes p.floating) start) moved.0 in
    let tiled = tile_all (nodes p.floating ++ nodes p.panes) start in
    let kept = apply_pane_grid-SameViews (record tiled { workspace_open = true }) in
    (
      views-nil (apply_pane_grid (record tiled { workspace_open = true })).floating
          (kept.0 ∙ ap (λ (q : Page). views q.floating) same ∙ ap views moved.0),
      kept.1 ∙ ap (λ (q : Page). views q.panes) same ∙ moved.1,
    )

-- Leaving the grid puts every pane behind the floating windows, in order, with the geometry that was
-- kept for it. The panes are distinct.
pub set_layout_mode-floats :
    (p : Page)
    → Apart (nodes p.panes)
    → views (set_layout_mode false p).floating ≡ views p.floating ++ map floated (views p.panes)
unfolding set_layout_mode
set_layout_mode-floats p apart =
    let start = record p { tile_mode = false; pane_maxed = none } in
    (apply_pane_grid-SameViews (untile_all (nodes p.panes) start)).0
    ∙ untile_all-views (nodes p.panes) p.panes start refl apart

-- The geometry of a window.
abbrev pub placed : List Win → List (ℕ × Rect)
placed = map λ w. (w.node, w.rect)

view_place : View → ℕ × Rect
view_place v = (v.0, v.1)

placed-views : (ws : List Win) → placed ws ≡ map view_place (views ws)
unfolding view_place
placed-views [] = refl
placed-views (w ∷ ws) = ap (λ r. (w.node, w.rect) ∷ r) (placed-views ws)

place-back : (vs : List View) → map view_place (map floated (map paned vs)) ≡ map view_place vs
unfolding view_place
place-back [] = refl
place-back (v ∷ vs) = ap (λ r. (v.0, v.1) ∷ r) (place-back vs)

paned-first : (vs : List View) → map (λ (v : View). v.0) (map paned vs) ≡ map (λ (v : View). v.0) vs
paned-first [] = refl
paned-first (v ∷ vs) = ap (λ r. v.0 ∷ r) (paned-first vs)

nodes-paned : (ws vs : List Win) → views ws ≡ map paned (views vs) → nodes ws ≡ nodes vs
nodes-paned ws vs e =
    nodes-views ws ∙ ap (map (λ (v : View). v.0)) e ∙ paned-first (views vs) ∙ sym (nodes-views vs)

-- Tiling a page that has no panes and floating it again gives every window back, in order, at the
-- place and size that it had. The windows are distinct.
pub set_layout_mode-roundtrip :
    (p : Page)
    → p.panes ≡ []
    → Apart (nodes p.floating)
    → placed (set_layout_mode false (set_layout_mode true p)).floating ≡ placed p.floating
set_layout_mode-roundtrip p empty apart =
    let q = set_layout_mode true p in
    let free =
      subst (λ ws. All (λ n. Missing n (nodes ws)) (nodes p.floating)) (sym empty)
        (all_free (nodes p.floating)) in
    let tiled = set_layout_mode-tiles p apart free in
    let paned_all : views q.panes ≡ map paned (views p.floating) =
      tiled.1 ∙ ap (λ ws. views ws ++ map paned (views p.floating)) empty in
    let apart' = subst Apart (sym (nodes-paned q.panes p.floating paned_all)) apart in
    let back : views (set_layout_mode false q).floating
        ≡ map floated (map paned (views p.floating)) =
      set_layout_mode-floats q apart'
      ∙ ap (λ ws. views ws ++ map floated (views q.panes)) tiled.0
      ∙ ap (map floated) paned_all in
    placed-views (set_layout_mode false q).floating
    ∙ ap (map view_place) back
    ∙ place-back (views p.floating)
    ∙ sym (placed-views p.floating)
