-- ===== src/Layout/Resize/Whole.antt =====
-- A resize from the press to its end: internal/webui/assets/static/js/ui-socket.js.
use termcp.Base.{
  ℕ, true, false, not, ◌&&◌, List, [], ◌∷◌, ℤ, ◌+ℤ◌, ◌≤ℤ◌, min_ℤ, ◌≡◌, refl, arith, if◌then◌else◌,
}
use termcp.Layout.Resize.{
  Box, Resize, Corner, is_east, is_south, min_width, min_height, apply_pending, moved, on_move,
  on_frame, finish, on_up, begin_resize, Motion, drags, frames, lifts, loses, respond, respond_all,
}
use termcp.Layout.Resize.Anchored.{IsAnchored, Side-start, respond_all-IsAnchored}

-- The class, the capture and the listeners are there exactly during the resize, and a frame is
-- asked for only then.
pub record IsTidy (r : Resize) : Type 0 where
  pub class_tidy : r.resizing_class ≡ r.resizing
  pub captured_tidy : r.captured ≡ r.resizing
  pub listening_tidy : r.listening ≡ r.resizing
  pub frame_tidy : (r.frame && not r.resizing) ≡ false

respond-IsTidy : (m : Motion) (r : Resize) → IsTidy r → IsTidy (respond m r)
unfolding respond on_move moved on_frame on_up finish apply_pending
respond-IsTidy (drags p x y) r h = ground arith
respond-IsTidy frames r h = ground arith
respond-IsTidy (lifts p) r h = ground arith
respond-IsTidy loses r h = ground arith

respond_all-IsTidy : (ms : List Motion) (r : Resize) → IsTidy r → IsTidy (respond_all ms r)
unfolding respond_all
respond_all-IsTidy [] r h = h
respond_all-IsTidy (m ∷ ms) r h = respond_all-IsTidy ms (respond m r) (respond-IsTidy m r h)

begin-IsAnchored :
    (p : ℕ) (x y : ℤ) (c : Corner) (r : Resize)
    → IsAnchored (is_east c) (is_south c) r.box (begin_resize true 0 p x y c r)
unfolding begin_resize
begin-IsAnchored p x y c r = record {
  east = refl;
  south = refl;
  across = Side-start (is_east c) min_width r.box.left r.box.width;
  down = Side-start (is_south c) min_height r.box.top r.box.height;
}

begin-IsTidy : (p : ℕ) (x y : ℤ) (c : Corner) (r : Resize) → IsTidy (begin_resize true 0 p x y c r)
unfolding begin_resize
begin-IsTidy p x y c r = ground arith

-- A window that a grip at corner `c` has changed from the box `b`: the opposite corner stands, and
-- neither size is less than the minimum, unless it was.
pub record IsResized (c : Corner) (b : Box) (r : Resize) : Type 0 where
  pub fixed_across :
      (if is_east c then r.box.left else r.box.left +ℤ r.box.width)
      ≡ (if is_east c then b.left else b.left +ℤ b.width)
  pub fixed_down :
      (if is_south c then r.box.top else r.box.top +ℤ r.box.height)
      ≡ (if is_south c then b.top else b.top +ℤ b.height)
  pub wide : min_ℤ min_width b.width ≤ℤ r.box.width
  pub high : min_ℤ min_height b.height ≤ℤ r.box.height
  pub tidy : IsTidy r

-- From the press of the main button on a grip, and through any moves of any pointers, frames,
-- releases and losses, the opposite corner of the window stands where it was; its width stays 320
-- or more and its height 240 or more, or what they were if that was less; and the class, the
-- pointer capture and the listeners of the resize are there exactly while it goes on.
pub respond_all-IsResized :
    (p : ℕ) (x y : ℤ) (c : Corner) (r : Resize) (ms : List Motion)
    → IsResized c r.box (respond_all ms (begin_resize true 0 p x y c r))
respond_all-IsResized p x y c r ms =
    let start = begin_resize true 0 p x y c r in
    let h =
      respond_all-IsAnchored (is_east c) (is_south c) r.box ms start (begin-IsAnchored p x y c r) in
    record {
      fixed_across = h.across.fixed;
      fixed_down = h.down.fixed;
      wide = h.across.big;
      high = h.down.big;
      tidy = respond_all-IsTidy ms start (begin-IsTidy p x y c r);
    }
