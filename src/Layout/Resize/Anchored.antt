-- ===== src/Layout/Resize/Anchored.antt =====
-- The edges that a resize leaves alone: internal/webui/assets/static/js/ui-socket.js.
use termcp.Base.{
  ℕ, Bool, true, false, ◌&&◌, Option, none, some, List, [], ◌∷◌, ℤ, ◌+ℤ◌, ◌-ℤ◌, ◌≤ℤ◌, max_ℤ, min_ℤ,
  int_laws, ◌≡◌, refl, subst, sym, ◌∙◌, ap, arith, Bool-cases, inl, inr, if◌then◌else◌,
}
use termcp.Layout.Resize.{
  Box, Resize, min_width, min_height, pending_box, apply_pending, or_old, is_positive, is_pointer,
  grown, shifted, moved, on_move, on_frame, finish, on_up, Motion, drags, frames, lifts, loses,
  respond, respond_all,
}

-- One direction of a resize that started with a window at `at` of size `size`: whether its far edge
-- moves, where it is on screen, what it started from, and what is pending.
pub record Side (forward : Bool) (least at size place extent start_at start_size pending_size : ℤ)
    (pending_place : Option ℤ) : Type 0 where
  pub started_at : start_at ≡ at
  pub started_size : start_size ≡ size
  pub wanted : pending_place ≡ (if forward then none else some (at +ℤ (size -ℤ pending_size)))
  pub pending_big : min_ℤ least size ≤ℤ pending_size
  pub fixed : (if forward then place else place +ℤ extent) ≡ (if forward then at else at +ℤ size)
  pub big : min_ℤ least size ≤ℤ extent

min-le-max : (l a b : ℤ) → min_ℤ l a ≤ℤ max_ℤ l b
unfolding min_ℤ max_ℤ
min-le-max l a b = ground arith

min-le-self : (l a : ℤ) → min_ℤ l a ≤ℤ a
unfolding min_ℤ
min-le-self l a = ground arith

back-again : (at size p : ℤ) → at +ℤ (size -ℤ p) +ℤ p ≡ at +ℤ size
back-again at size p = omega int_laws

or_old-fixed :
    (forward : Bool) (at size place extent p : ℤ) (q : Option ℤ)
    → q ≡ (if forward then none else some (at +ℤ (size -ℤ p)))
    → (if forward then place else place +ℤ extent) ≡ (if forward then at else at +ℤ size)
    → (if forward then or_old q place else or_old q place +ℤ p)
      ≡ (if forward then at else at +ℤ size)
or_old-fixed true at size place extent p q e f = ap (λ o. or_old o place) e ∙ f
or_old-fixed false at size place extent p q e f =
    ap (λ o. or_old o place +ℤ p) e ∙ back-again at size p

shifted-wanted :
    (forward : Bool) (at size p w a b : ℤ) (q : Option ℤ)
    → a ≡ at
    → b ≡ size
    → q ≡ (if forward then none else some (at +ℤ (size -ℤ p)))
    → shifted forward a b w q ≡ (if forward then none else some (at +ℤ (size -ℤ w)))
shifted-wanted true at size p w a b q ea eb e = e
shifted-wanted false at size p w a b q ea eb e = rw (ea, eb) refl

-- The pending size and place go on screen, or do not.
Side-applied :
    (forward : Bool) (least at size place extent a b p : ℤ) (q : Option ℤ)
    → Side forward least at size place extent a b p q
    → Side forward least at size (or_old q place) p a b p q
Side-applied forward least at size place extent a b p q s = record {
  started_at = s.started_at;
  started_size = s.started_size;
  wanted = s.wanted;
  pending_big = s.pending_big;
  fixed = or_old-fixed forward at size place extent p q s.wanted s.fixed;
  big = s.pending_big;
}

Side-moved :
    (forward : Bool) (least at size place extent a b p delta : ℤ) (q : Option ℤ)
    → Side forward least at size place extent a b p q
    → Side forward least at size place extent a b
        (grown forward least b delta)
        (shifted forward a b (grown forward least b delta) q)
Side-moved forward least at size place extent a b p delta q s = record {
  started_at = s.started_at;
  started_size = s.started_size;
  wanted = shifted-wanted forward at size p _ a b q s.started_at s.started_size s.wanted;
  pending_big = min-le-max least size (if forward then b +ℤ delta else b -ℤ delta);
  fixed = s.fixed;
  big = s.big;
}

nothing-moved : (at size : ℤ) → at ≡ at +ℤ (size -ℤ size)
nothing-moved at size = omega int_laws

pub Side-start :
    (forward : Bool) (least at size : ℤ)
    → Side forward least at size at size at size size (if forward then none else some at)
Side-start true least at size = record {
  started_at = refl;
  started_size = refl;
  wanted = refl;
  pending_big = min-le-self least size;
  fixed = refl;
  big = min-le-self least size;
}
Side-start false least at size = record {
  started_at = refl;
  started_size = refl;
  wanted = ap some (nothing-moved at size);
  pending_big = min-le-self least size;
  fixed = refl;
  big = min-le-self least size;
}

abbrev pub Across : Bool → Box → Resize → Type 0
Across e b r =
    Side e min_width b.left b.width r.box.left r.box.width r.start_left r.start_w r.pending_w
      r.pending_left

abbrev pub Down : Bool → Box → Resize → Type 0
Down e b r =
    Side e min_height b.top b.height r.box.top r.box.height r.start_top r.start_h r.pending_h
      r.pending_top

pub record IsAnchored (e s : Bool) (b : Box) (r : Resize) : Type 0 where
  pub east : r.dir_e ≡ e
  pub south : r.dir_s ≡ s
  pub across : Across e b r
  pub down : Down s b r

if-IsAnchored :
    (e s : Bool) (b : Box) (c : Bool) (r q : Resize)
    → IsAnchored e s b r
    → IsAnchored e s b q
    → IsAnchored e s b (if c then r else q)
if-IsAnchored e s b true r q h k = h
if-IsAnchored e s b false r q h k = k

pending_box-IsAnchored :
    (e s : Bool) (b : Box) (r : Resize)
    → IsAnchored e s b r
    → IsAnchored e s b (record r { box = pending_box r })
unfolding pending_box
pending_box-IsAnchored e s b r h =
    elim (Bool-cases (is_positive r.pending_w && is_positive r.pending_h)) [
      | inl q ↦ simp q (record {
        east = h.east;
        south = h.south;
        across =
            Side-applied e min_width b.left b.width r.box.left r.box.width r.start_left r.start_w
              r.pending_w r.pending_left h.across;
        down =
            Side-applied s min_height b.top b.height r.box.top r.box.height r.start_top r.start_h
              r.pending_h r.pending_top h.down;
      })
      | inr q ↦ simp q h
    ]

moved-IsAnchored :
    (e s : Bool) (b : Box) (x y : ℤ) (r : Resize)
    → IsAnchored e s b r
    → IsAnchored e s b (moved x y r)
unfolding moved
moved-IsAnchored e s b x y r h = record {
  east = h.east;
  south = h.south;
  across =
      subst
        (λ d.
          Side e min_width b.left b.width r.box.left r.box.width r.start_left r.start_w
            (grown d min_width r.start_w (x -ℤ r.start_x))
            (shifted d r.start_left r.start_w (grown d min_width r.start_w (x -ℤ r.start_x))
              r.pending_left))
        (sym h.east)
        (Side-moved e min_width b.left b.width r.box.left r.box.width r.start_left r.start_w
          r.pending_w (x -ℤ r.start_x) r.pending_left h.across);
  down =
      subst
        (λ d.
          Side s min_height b.top b.height r.box.top r.box.height r.start_top r.start_h
            (grown d min_height r.start_h (y -ℤ r.start_y))
            (shifted d r.start_top r.start_h (grown d min_height r.start_h (y -ℤ r.start_y))
              r.pending_top))
        (sym h.south)
        (Side-moved s min_height b.top b.height r.box.top r.box.height r.start_top r.start_h
          r.pending_h (y -ℤ r.start_y) r.pending_top h.down);
}

on_move-IsAnchored :
    (e s : Bool) (b : Box) (p : ℕ) (x y : ℤ) (r : Resize)
    → IsAnchored e s b r
    → IsAnchored e s b (on_move p x y r)
unfolding on_move
on_move-IsAnchored e s b p x y r h =
    if-IsAnchored e s b _ (moved x y r) r (moved-IsAnchored e s b x y r h) h

applied-IsAnchored :
    (e s : Bool) (b : Box) (sync : Bool) (r : Resize)
    → IsAnchored e s b r
    → IsAnchored e s b (apply_pending sync r)
unfolding apply_pending
applied-IsAnchored e s b sync r h =
    let k = pending_box-IsAnchored e s b r h in
    record { east = k.east; south = k.south; across = k.across; down = k.down }

on_frame-IsAnchored :
    (e s : Bool) (b : Box) (r : Resize) → IsAnchored e s b r → IsAnchored e s b (on_frame r)
unfolding on_frame
on_frame-IsAnchored e s b r h =
    let quiet : IsAnchored e s b (record r { frame = false }) = record {
      east = h.east;
      south = h.south;
      across = h.across;
      down = h.down;
    } in
    if-IsAnchored e s b r.frame _ r
      (if-IsAnchored e s b r.resizing _ (record r { frame = false })
        (applied-IsAnchored e s b false _ quiet) quiet)
      h

finish-IsAnchored :
    (e s : Bool) (b : Box) (r : Resize) → IsAnchored e s b r → IsAnchored e s b (finish r)
unfolding finish
finish-IsAnchored e s b r h =
    let over : IsAnchored e s b (record r { resizing = false; frame = false; sync_timer = false }) =
      record { east = h.east; south = h.south; across = h.across; down = h.down } in
    let k = applied-IsAnchored e s b true _ over in
    if-IsAnchored e s b r.resizing _ r
      (record { east = k.east; south = k.south; across = k.across; down = k.down }) h

pub respond_all-IsAnchored :
    (e s : Bool) (b : Box) (ms : List Motion) (r : Resize)
    → IsAnchored e s b r
    → IsAnchored e s b (respond_all ms r)
unfolding respond_all respond on_up
respond_all-IsAnchored e s b [] r h = h
respond_all-IsAnchored e s b (drags p x y ∷ ms) r h =
    respond_all-IsAnchored e s b ms _ (on_move-IsAnchored e s b p x y r h)
respond_all-IsAnchored e s b (frames ∷ ms) r h =
    respond_all-IsAnchored e s b ms _ (on_frame-IsAnchored e s b r h)
respond_all-IsAnchored e s b (lifts p ∷ ms) r h = respond_all-IsAnchored e s b ms _ (
    if-IsAnchored e s b (r.resizing && is_pointer r.pointer p) (finish r) r
      (finish-IsAnchored e s b r h) h)
respond_all-IsAnchored e s b (loses ∷ ms) r h =
    respond_all-IsAnchored e s b ms _ (finish-IsAnchored e s b r h)
