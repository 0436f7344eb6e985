-- ===== src/Layout/Tabs/Active.antt =====
-- The tab that is active: internal/webui/assets/static/js/shell-windows.js, with what is drawn on top by
-- the z values of internal/webui/assets/static/css/app.css.
use termcp.Base.{
  ℕ, ◌≤◌, Bool, true, false, not, ◌&&◌, ◌||◌, Option, none, some, List, [], ◌∷◌, ◌++◌, any, ◌≡◌,
  refl, sym, ap, ◌∙◌, subst, arith, All, leb, ltb, if◌then◌else◌, is_some, inl, inr, ◌⊎◌,
}
use termcp.Window.{Win}
use termcp.Layout.{Page}
use termcp.Layout.Front.{css_z, css_of}
use termcp.Layout.Tabs.{
  Words, Tab, Bar, drawn_z, top_from, second, top_window, is_top, painted, paint_tabs,
  refresh_session_tabbar,
}

module _ (seen : Win → Bool) (height : Win → ℕ) where
  -- The window is seen, and none that is seen lies above it: none has a greater z value, and none that
  -- comes later has the same.
  pub record IsFront (ws : List Win) (w : Win) : Type 0 where
    pub before : List Win
    pub after : List Win
    pub place : ws ≡ before ++ w ∷ after
    pub in_sight : seen w ≡ true
    pub beneath : All (λ u. (not (seen u) || leb (height u) (height w)) ≡ true) before
    pub below : All (λ u. (not (seen u) || ltb (height u) (height w)) ≡ true) after

abbrev visible : Win → Bool
visible w = not w.minimized

abbrev Front : List Win → Win → Type 0
Front ws w = IsFront visible drawn_z ws w

cons-Front :
    (u : Win) (ws : List Win) (w : Win)
    → (not (visible u) || leb (drawn_z u) (drawn_z w)) ≡ true
    → Front ws w
    → Front (u ∷ ws) w
cons-Front u ws w h v = record {
  before = u ∷ v.before;
  after = v.after;
  place = ap (λ xs. u ∷ xs) v.place;
  in_sight = v.in_sight;
  beneath = (h, v.beneath);
  below = v.below;
}

head-Front :
    (w : Win) (ws : List Win)
    → visible w ≡ true
    → All (λ u. (not (visible u) || ltb (drawn_z u) (drawn_z w)) ≡ true) ws
    → Front (w ∷ ws) w
head-Front w ws e h = record {
  before = [];
  after = ws;
  place = refl;
  in_sight = e;
  beneath = tt;
  below = h;
}

-- From a best value `z`, the loop keeps it when everything is below it, or finds a window in front.
abbrev Best : List Win → ℕ → ℕ → Option (ℕ × ℕ) → Type 0
Best ws z n o =
    ((o ≡ some (z, n)) × All (λ u. (not (visible u) || ltb (drawn_z u) z) ≡ true) ws)
    ⊎ ((w : Win) × Front ws w × (o ≡ some (drawn_z w, w.node)) × (z ≤ drawn_z w))

skip-Best :
    (u : Win) (ws : List Win) (z n : ℕ) (o : Option (ℕ × ℕ))
    → (not (visible u) || ltb (drawn_z u) z) ≡ true
    → Best ws z n o
    → Best (u ∷ ws) z n o
skip-Best u ws z n o h (inl (e, all)) = inl (e, (h, all))
skip-Best u ws z n o h (inr (w, v, e, le)) =
    inr (w, cons-Front u ws w (ground (arith, h, le)) v, e, le)

take-Best :
    (u : Win) (ws : List Win) (z n : ℕ) (o : Option (ℕ × ℕ))
    → visible u ≡ true
    → z ≤ drawn_z u
    → Best ws (drawn_z u) u.node o
    → Best (u ∷ ws) z n o
take-Best u ws z n o e le (inl (f, all)) = inr (u, head-Front u ws e all, f, le)
take-Best u ws z n o e le (inr (w, v, f, higher)) =
    inr (w, cons-Front u ws w (ground (arith, higher)) v, f, omega arith)

next-Best :
    (a b : Bool) (w : Win) (ws : List Win) (z n : ℕ)
    → w.minimized ≡ a
    → leb z (drawn_z w) ≡ b
    → Best ws z n (top_from (some (z, n)) ws)
    → Best ws (drawn_z w) w.node (top_from (some (drawn_z w, w.node)) ws)
    → Best (w ∷ ws) z n (
        if a
        then top_from (some (z, n)) ws
        else top_from (if b then some (drawn_z w, w.node) else some (z, n)) ws)
next-Best true b w ws z n e f h k = skip-Best w ws z n (top_from (some (z, n)) ws) (ground arith) h
next-Best false true w ws z n e f h k =
    take-Best w ws z n (top_from (some (drawn_z w, w.node)) ws) (ground arith) (ground arith) k
next-Best false false w ws z n e f h k =
    skip-Best w ws z n (top_from (some (z, n)) ws) (ground arith) h

top_from-Best : (ws : List Win) (z n : ℕ) → Best ws z n (top_from (some (z, n)) ws)
unfolding top_from
top_from-Best [] z n = inl (refl, tt)
top_from-Best (w ∷ ws) z n =
    next-Best w.minimized (leb z (drawn_z w)) w ws z n refl refl (top_from-Best ws z n)
      (top_from-Best ws (drawn_z w) w.node)

-- What the loop finds, from nothing.
abbrev Found : List Win → Option (ℕ × ℕ) → Type 0
Found ws o =
    ((o ≡ none) × (any visible ws ≡ false))
    ⊎ ((w : Win) × Front ws w × (o ≡ some (drawn_z w, w.node)))

skip-Found :
    (u : Win) (ws : List Win) (o : Option (ℕ × ℕ))
    → u.minimized ≡ true
    → Found ws o
    → Found (u ∷ ws) o
skip-Found u ws o e (inl (f, h)) = inl (f, ground (arith, h))
skip-Found u ws o e (inr (w, v, f)) = inr (w, cons-Front u ws w (ground arith) v, f)

start-Found :
    (u : Win) (ws : List Win) (o : Option (ℕ × ℕ))
    → u.minimized ≡ false
    → Best ws (drawn_z u) u.node o
    → Found (u ∷ ws) o
start-Found u ws o e (inl (f, all)) = inr (u, head-Front u ws (ground arith) all, f)
start-Found u ws o e (inr (w, v, f, le)) = inr (w, cons-Front u ws w (ground arith) v, f)

next-Found :
    (a : Bool) (w : Win) (ws : List Win)
    → w.minimized ≡ a
    → Found ws (top_from none ws)
    → Found (w ∷ ws) (if a then top_from none ws else top_from (some (drawn_z w, w.node)) ws)
next-Found true w ws e h = skip-Found w ws (top_from none ws) e h
next-Found false w ws e h =
    start-Found w ws (top_from (some (drawn_z w, w.node)) ws) e
      (top_from-Best ws (drawn_z w) w.node)

top_from-Found : (ws : List Win) → Found ws (top_from none ws)
unfolding top_from
top_from-Found [] = inl (refl, refl)
top_from-Found (w ∷ ws) = next-Found w.minimized w ws refl (top_from-Found ws)

-- A window that is not hidden, and whose z value the loop reads as it is drawn.
abbrev pub IsPlain : Win → Type 0
IsPlain w = (w.hidden ≡ false) × ((is_some w.z_index || w.fullscreen) ≡ true)

abbrev pub on_screen : Win → Bool
on_screen w = not w.minimized && not w.hidden

css_of-plain :
    (o : Option ℕ) (full : Bool) → (is_some o || full) ≡ true → css_of o full ≡ css_of o true
css_of-plain none full h = ap (λ f. css_of none f) h
css_of-plain (some z) full h = refl

drawn-css : (o : Option ℕ) (w : Win) → w.z_index ≡ o → css_of o true ≡ drawn_z w
drawn-css none w e = rw e refl
drawn-css (some z) w e = rw e refl

css-drawn : (w : Win) → IsPlain w → css_z w ≡ drawn_z w
css-drawn w h = css_of-plain w.z_index w.fullscreen h.1 ∙ drawn-css w.z_index w refl

on_screen-visible : (w : Win) → IsPlain w → on_screen w ≡ visible w
on_screen-visible w h = ground (arith, h.0)

All-parts :
    (P : Win → Type 0) (xs : List Win) (y : Win) (ys : List Win)
    → All P (xs ++ y ∷ ys)
    → All P xs × P y × All P ys
All-parts P [] y ys h = (tt, h.0, h.1)
All-parts P (x ∷ xs) y ys h = let (a, b, c) = All-parts P xs y ys h.1 in ((h.0, a), b, c)

plain-beneath :
    (z : ℕ) (us : List Win)
    → All IsPlain us
    → All (λ u. (not (visible u) || leb (drawn_z u) z) ≡ true) us
    → All (λ u. (not (on_screen u) || leb (css_z u) z) ≡ true) us
plain-beneath z [] h g = tt
plain-beneath z (u ∷ us) h g =
    (rw (on_screen-visible u h.0, css-drawn u h.0) g.0, plain-beneath z us h.1 g.1)

plain-below :
    (z : ℕ) (us : List Win)
    → All IsPlain us
    → All (λ u. (not (visible u) || ltb (drawn_z u) z) ≡ true) us
    → All (λ u. (not (on_screen u) || ltb (css_z u) z) ≡ true) us
plain-below z [] h g = tt
plain-below z (u ∷ us) h g =
    (rw (on_screen-visible u h.0, css-drawn u h.0) g.0, plain-below z us h.1 g.1)

IsPlain-Front :
    (ws : List Win) (w : Win) → All IsPlain ws → Front ws w → IsFront on_screen css_z ws w
IsPlain-Front ws w h v =
    let (b, m, a) = All-parts IsPlain v.before w v.after (subst (All IsPlain) v.place h) in
    record {
      before = v.before;
      after = v.after;
      place = v.place;
      in_sight = on_screen-visible w m ∙ v.in_sight;
      beneath =
          subst (λ z. All (λ u. (not (on_screen u) || leb (css_z u) z) ≡ true) v.before)
            (sym (css-drawn w m)) (plain-beneath (drawn_z w) v.before b v.beneath);
      below =
          subst (λ z. All (λ u. (not (on_screen u) || ltb (css_z u) z) ≡ true) v.after)
            (sym (css-drawn w m)) (plain-below (drawn_z w) v.after a v.below);
    }

plain-any : (ws : List Win) → All IsPlain ws → any on_screen ws ≡ any visible ws
plain-any [] h = refl
plain-any (w ∷ ws) h = rw (on_screen-visible w h.0, plain-any ws h.1) refl

any_visible-in :
    (bs : List Win) (w : Win) (ys : List Win) → visible w ≡ true → any visible (bs ++ w ∷ ys) ≡ true
any_visible-in [] w ys e = rw e refl
any_visible-in (b ∷ bs) w ys e = ground (arith, any_visible-in bs w ys e)

paint_tabs-active :
    (words : Words) (top : Option ℕ) (old : List Tab) (ws : List Win)
    → All (λ t. t.active ≡ true → is_top top t.window ≡ true) (paint_tabs words top old ws)
unfolding paint_tabs painted
paint_tabs-active words top old [] = _
paint_tabs-active words top old (w ∷ ws) = (λ e. e, paint_tabs-active words top old ws)

-- The window at the top has a tab, and it is active.
any_active-in :
    (words : Words) (old : List Tab) (bs : List Win) (w : Win) (ys qs : List Win)
    → any (λ t. t.active) (paint_tabs words (some w.node) old ((bs ++ w ∷ ys) ++ qs)) ≡ true
unfolding paint_tabs painted
any_active-in words old [] w ys qs = ground arith
any_active-in words old (b ∷ bs) w ys qs = ground (arith, any_active-in words old bs w ys qs)

any_active-none :
    (words : Words) (old : List Tab) (ws : List Win)
    → any (λ t. t.active) (paint_tabs words none old ws) ≡ false
unfolding paint_tabs painted
any_active-none words old [] = refl
any_active-none words old (w ∷ ws) = any_active-none words old ws

-- The tab is that of a window in front.
abbrev pub IsOfFront : List Win → Tab → Type 0
IsOfFront ws t = t.active ≡ true → (w : Win) × IsFront on_screen css_z ws w × (w.node ≡ t.window)

front_tabs :
    (ws : List Win) (w : Win) (ts : List Tab)
    → IsFront on_screen css_z ws w
    → All (λ t. t.active ≡ true → is_top (some w.node) t.window ≡ true) ts
    → All (IsOfFront ws) ts
front_tabs ws w [] v h = tt
front_tabs ws w (t ∷ ts) v h =
    (λ e. let same = h.0 e in (w, v, ground (arith, same)), front_tabs ws w ts v h.1)

no_tabs :
    (ws : List Win) (ts : List Tab)
    → All (λ t. t.active ≡ true → is_top none t.window ≡ true) ts
    → All (IsOfFront ws) ts
no_tabs ws [] h = tt
no_tabs ws (t ∷ ts) h = (λ e. absurd (let same = h.0 e in ground arith), no_tabs ws ts h.1)

-- What the theorem says of the tabs.
abbrev Shows : Page → List Tab → Type 0
Shows p ts = All (IsOfFront p.floating) ts × (any (λ t. t.active) ts ≡ any on_screen p.floating)

Found-Shows :
    (words : Words) (p : Page) (old : List Tab) (o : Option (ℕ × ℕ))
    → All IsPlain p.floating
    → Found p.floating o
    → Shows p (paint_tabs words (second o) old (p.floating ++ p.panes))
Found-Shows words p old o h (inl (e, h')) = rw e (
  no_tabs p.floating _ (paint_tabs-active words none old (p.floating ++ p.panes)),
  any_active-none words old (p.floating ++ p.panes) ∙ sym (plain-any p.floating h ∙ h'),
)
Found-Shows words p old o h (inr (w, v, e)) = rw e (
  front_tabs p.floating w _ (IsPlain-Front p.floating w h v)
      (paint_tabs-active words (some w.node) old (p.floating ++ p.panes)),
  subst (λ ws. any (λ t. t.active) (paint_tabs words (some w.node) old (ws ++ p.panes)) ≡ true)
        (sym v.place) (any_active-in words old v.before w v.after p.panes)
      ∙ sym (
          plain-any p.floating h
          ∙ subst (λ ws. any visible ws ≡ true) (sym v.place)
              (any_visible-in v.before w v.after v.in_sight)),
)

-- In the floating layout, while no floating window is hidden and each has an inline z value or is
-- full-screen: a tab of the bar that is active belongs to a floating window on screen above which no other
-- is drawn, by the z values of the style sheet or, where these are equal, by the order of the windows;
-- and some tab is active exactly when a floating window is on screen.
pub refresh_session_tabbar-active :
    (words : Words) (p : Page) (b : Bar)
    → p.tile_mode ≡ false
    → All IsPlain p.floating
    → All (IsOfFront p.floating) (refresh_session_tabbar words p b).tabs
      × (any (λ t. t.active) (refresh_session_tabbar words p b).tabs ≡ any on_screen p.floating)
unfolding refresh_session_tabbar top_window
refresh_session_tabbar-active words p b e h =
    rw e (Found-Shows words p b.tabs (top_from none p.floating) h (top_from-Found p.floating))
