-- ===== src/Layout/Each.antt =====
-- Predicates on every window of a list, through the changes of lists that the layout makes:
-- internal/webui/assets/static/js/shell-windows.js and util.js.
use termcp.Base.{
  ℕ, Bool, false, not, ◌&&◌, none, some, List, [], ◌∷◌, map, ◌≡◌, refl, subst, ◌++◌, ==_iff, inl,
  inr, All, ◌==◌, Bool-cases,
}
use termcp.Window.{Win}
use termcp.Layout.{find_node, drop_node, change_node, sink_others, with_z}
use termcp.Layout.Actions.{set_hidden}

module _ (P Q : Win → Type 0) where
  pub All-weaken : (ws : List Win) → ((w : Win) → P w → Q w) → All P ws → All Q ws
  All-weaken [] f h = tt
  All-weaken (w ∷ ws) f h = (f w h.0, All-weaken ws f h.1)

module _ (P : Win → Type 0) where
  pub All-drop : (n : ℕ) (ws : List Win) → All P ws → All P (drop_node n ws)
  unfolding drop_node
  All-drop n [] h = tt
  All-drop n (w ∷ ws) h = elim (Bool-cases (w.node == n)) [
    | inl e ↦ rw e (All-drop n ws h.1)
    | inr e ↦ rw e (h.0, All-drop n ws h.1)
  ]

  pub All-change :
      (n : ℕ) (f : Win → Win) (ws : List Win)
      → ((w : Win) → P w → P (f w))
      → All P ws
      → All P (change_node n f ws)
  unfolding change_node
  All-change n f [] k h = tt
  All-change n f (w ∷ ws) k h = elim (Bool-cases (w.node == n)) [
    | inl e ↦ rw e (k w h.0, All-change n f ws k h.1)
    | inr e ↦ rw e (h.0, All-change n f ws k h.1)
  ]

  pub All-map :
      (f : Win → Win) (ws : List Win) → ((w : Win) → P w → P (f w)) → All P ws → All P (map f ws)
  All-map f [] k h = tt
  All-map f (w ∷ ws) k h = (k w h.0, All-map f ws k h.1)

  pub All-find : (n : ℕ) (ws : List Win) (w : Win) → find_node n ws ≡ some w → All P ws → P w
  unfolding find_node
  All-find n [] w e h = cc
  All-find n (v ∷ ws) w e h = elim (Bool-cases (v.node == n)) [
    | inl f ↦ subst P (cc (rw f at e)) h.0
    | inr f ↦ All-find n ws w (rw f at e) h.1
  ]

  pub All-sink :
      (n : ℕ) (ws : List Win)
      → ((z : ℕ) (w : Win) → P w → P (with_z z w))
      → All P ws
      → All P (sink_others n ws)
  unfolding sink_others
  All-sink n [] k h = tt
  All-sink n (w ∷ ws) k h = elim (Bool-cases (not (w.node == n) && w.fullscreen)) [
    | inl e ↦ rw e (k _ w h.0, All-sink n ws k h.1)
    | inr e ↦ rw e (h.0, All-sink n ws k h.1)
  ]

  pub All-set_hidden :
      (b : Bool) (ws : List Win)
      → ((w : Win) → P w → P (record w { hidden = b }))
      → All P ws
      → All P (set_hidden b ws)
  unfolding set_hidden
  All-set_hidden b [] k h = tt
  All-set_hidden b (w ∷ ws) k h = (k w h.0, All-set_hidden b ws k h.1)

-- A predicate that changes into another one: at the windows of a node, and at the others.
module _ (P R : Win → Type 0) (n : ℕ) (keep : (w : Win) → (w.node == n) ≡ false → P w → R w) where
  pub All-change_at :
      (f : Win → Win) (ws : List Win)
      → ((w : Win) → w.node ≡ n → P w → R (f w))
      → All P ws
      → All R (change_node n f ws)
  unfolding change_node
  All-change_at f [] k h = tt
  All-change_at f (w ∷ ws) k h = elim (Bool-cases (w.node == n)) [
    | inl e ↦ rw e (k w ((==_iff w.node n).0 e) h.0, All-change_at f ws k h.1)
    | inr e ↦ rw e (keep w e h.0, All-change_at f ws k h.1)
  ]

  pub All-drop_at : (ws : List Win) → All P ws → All R (drop_node n ws)
  unfolding drop_node
  All-drop_at [] h = tt
  All-drop_at (w ∷ ws) h = elim (Bool-cases (w.node == n)) [
    | inl e ↦ rw e (All-drop_at ws h.1)
    | inr e ↦ rw e (keep w e h.0, All-drop_at ws h.1)
  ]

  pub All-absent : (ws : List Win) → find_node n ws ≡ none → All P ws → All R ws
  unfolding find_node
  All-absent [] e h = tt
  All-absent (w ∷ ws) e h = elim (Bool-cases (w.node == n)) [
    | inl f ↦ cc (rw f at e)
    | inr f ↦ (keep w f h.0, All-absent ws (rw f at e) h.1)
  ]

pub find_node-node : (n : ℕ) (ws : List Win) (w : Win) → find_node n ws ≡ some w → w.node ≡ n
unfolding find_node
find_node-node n [] w e = cc
find_node-node n (v ∷ ws) w e = elim (Bool-cases (v.node == n)) [
  | inl f ↦ subst (λ (u : Win). u.node ≡ n) {x = v} {y = w} (cc (rw f at e)) ((==_iff v.node n).0 f)
  | inr f ↦ find_node-node n ws w (rw f at e)
]

pub find_node-append :
    (n : ℕ) (ws vs : List Win)
    → find_node n (ws ++ vs) ≡ none
    → (find_node n ws ≡ none) × (find_node n vs ≡ none)
unfolding find_node
find_node-append n [] vs e = (refl, e)
find_node-append n (w ∷ ws) vs e = elim (Bool-cases (w.node == n)) [
  | inl f ↦ cc (rw f at e)
  | inr f ↦ let (a, b) = find_node-append n ws vs (rw f at e) in (rw f a, b)
]
