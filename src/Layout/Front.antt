-- ===== src/Layout/Front.antt =====
-- The order of floating windows: `bringShellWindowToFront` of
-- internal/webui/assets/static/js/util.js, with the z values of internal/webui/assets/static/css/app.css.
use termcp.Base.{
  sym, subst, ◌∙◌, ℕ, ◌<◌, Bool, true, false, not, Option, none, some, List, [], ◌∷◌, ◌≡◌, refl,
  inl, inr, arith, All, is_empty, ◌==◌, ==_self, if◌then◌else◌, Bool-cases,
}
use termcp.Window.{Win}
use termcp.Layout.{
  Page, fullscreen_z, is_tiled, find_node, change_node, with_z, next_z, raise, bring_to_front,
  in_list, contains_node, shown, first_node, apply_pane_grid, mark_active, mark_maxed, present,
}

-- The z value that the style sheet gives a floating window on top of its inline style.
abbrev pub css_of : Option ℕ → Bool → ℕ
css_of (some z) full = z
css_of none true = fullscreen_z
css_of none false = 10001

abbrev pub css_z : Win → ℕ
css_z w = css_of w.z_index w.fullscreen

-- The raised window has the value `top`, every other one less.
abbrev pub Under : ℕ → ℕ → Win → Type 0
Under n top w = if w.node == n then css_z w ≡ top else css_z w < top

change-Under :
    (n top : ℕ) (ws : List Win)
    → All (λ w. css_z w < top) ws
    → All (Under n top) (change_node n (with_z top) ws)
unfolding change_node
change-Under n top [] h = tt
change-Under n top (w ∷ ws) h = elim (Bool-cases (w.node == n)) [
  | inl e ↦ simp e (refl, change-Under n top ws h.1)
  | inr e ↦ let low = h.0 in simp e (low, change-Under n top ws h.1)
]

abbrev Tops : ℕ → Page → Page → Type 0
Tops n p q = All (Under n q.z_seq) q.floating × (p.z_seq < q.z_seq)

raise-Tops :
    (p : Page) (w : Win)
    → w.fullscreen ≡ false
    → All (λ v. css_z v < next_z p.z_seq) p.floating
    → Tops w.node p (raise w p)
unfolding raise
raise-Tops p w windowed below =
    let grows : p.z_seq < next_z p.z_seq = ground arith in
    rw windowed (change-Under w.node (next_z p.z_seq) p.floating below, grows)

raises :
    (p : Page) (w : Win)
    → is_tiled w.node p ≡ false
    → find_node w.node p.floating ≡ some w
    → bring_to_front w.node p ≡ raise w p
unfolding bring_to_front
raises p w here found = rw (here, found) refl

-- While every floating window is drawn below the next running number, raising one that is not
-- full-screen gives it that number, which is larger than the number before and than the value that every
-- other floating window is drawn with.
pub bring_to_front-tops :
    (p : Page) (w : Win)
    → is_tiled w.node p ≡ false
    → find_node w.node p.floating ≡ some w
    → w.fullscreen ≡ false
    → All (λ v. css_z v < next_z p.z_seq) p.floating
    → let q = bring_to_front w.node p in All (Under w.node q.z_seq) q.floating × (p.z_seq < q.z_seq)
bring_to_front-tops p w here found windowed below =
    subst (Tops w.node p) (sym (raises p w here found)) (raise-Tops p w windowed below)

contains-mark_maxed :
    (n : ℕ) (m : Option ℕ) (ws : List Win)
    → contains_node n (shown (mark_maxed m ws)) ≡ contains_node n (shown ws)
unfolding mark_maxed
contains-mark_maxed n m [] = refl
contains-mark_maxed n m (w ∷ ws) = elim (Bool-cases w.minimized) [
  | inl e ↦ simp (e, contains-mark_maxed n m ws) refl
  | inr e ↦ simp (e, contains-mark_maxed n m ws) refl
]

contains-mark_active :
    (n : ℕ) (m : Option ℕ) (ws : List Win)
    → contains_node n (shown (mark_active m ws)) ≡ contains_node n (shown ws)
unfolding mark_active
contains-mark_active n m [] = refl
contains-mark_active n m (w ∷ ws) = elim (Bool-cases w.minimized) [
  | inl e ↦ simp (e, contains-mark_active n m ws) refl
  | inr e ↦ simp (e, contains-mark_active n m ws) refl
]

in_list-same :
    (a : Option ℕ) (xs ys : List Win)
    → ((n : ℕ) → contains_node n xs ≡ contains_node n ys)
    → in_list a xs ≡ in_list a ys
in_list-same none xs ys h = refl
in_list-same (some n) xs ys h = h n

first_node-in : (ws : List Win) → in_list (first_node ws) ws ≡ not (is_empty ws)
first_node-in [] = refl
first_node-in (w ∷ ws) = rw (==_self w.node) refl

in_list-some : (a : Option ℕ) (ws : List Win) → in_list a ws ≡ true → not (is_empty ws) ≡ true
in_list-some none ws h = absurd (ground arith)
in_list-some (some n) [] h = absurd (ground arith)
in_list-some (some n) (w ∷ ws) h = refl

-- After the grid is laid out the active pane is one of the panes that are not minimized, unless all
-- are minimized; then there is none among them.
pub apply_pane_grid-active :
    (p : Page)
    → in_list (apply_pane_grid p).pane_active (shown (apply_pane_grid p).panes)
      ≡ not (is_empty (shown p.panes))
unfolding apply_pane_grid
apply_pane_grid-active p =
    let m = present p.pane_maxed p.panes in
    elim (Bool-cases (in_list p.pane_active (shown p.panes))) [
      | inl e ↦ rw e (
          in_list-same p.pane_active _ (shown p.panes) (λ n. contains-mark_maxed n m p.panes)
          ∙ e
          ∙ sym (in_list-some p.pane_active (shown p.panes) e))
      | inr e ↦
          let f = first_node (shown p.panes) in
          rw e (
            in_list-same f _ (shown p.panes) (λ n.
              contains-mark_active n f (mark_maxed m p.panes) ∙ contains-mark_maxed n m p.panes)
            ∙ first_node-in (shown p.panes))
    ]
