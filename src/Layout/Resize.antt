-- ===== src/Layout/Resize.antt =====
-- Dragging and resizing a window with the pointer: `setupShellWindowDrag` and
-- `setupShellWindowResize` of internal/webui/assets/static/js/ui-socket.js. Coordinates are whole
-- pixels. Whether the fitted terminal is still live, and so may be synchronised, is a field.
pub mod Anchored
pub mod Whole
use termcp.Base.{
  ℕ, suc, Bool, true, false, not, ◌||◌, ◌&&◌, Option, none, some, List, [], ◌∷◌, ℤ, pos, ◌+ℤ◌, ◌-ℤ◌,
  max_ℤ, leb_ℤ, ◌==◌, if◌then◌else◌,
}

-- The place and size of the window.
pub record Box : Type 0 where
  pub left : ℤ
  pub top : ℤ
  pub width : ℤ
  pub height : ℤ

pub record Drag : Type 0 where
  pub box : Box
  pub active : Bool
  pub start_x : ℤ
  pub start_y : ℤ
  pub start_left : ℤ
  pub start_top : ℤ

pub data Mouse : Type 0 where
  -- on a button of the header or beside it, and whether the window is a pane
  presses : Bool → Bool → ℤ → ℤ → Mouse
  moves : ℤ → ℤ → Mouse
  releases : Mouse

unfoldable pub drag : Mouse → Drag → Drag
drag (presses on_button tiled x y) d = if on_button || tiled then d else record d {
  active = true;
  start_x = x;
  start_y = y;
  start_left = d.box.left;
  start_top = d.box.top;
}
drag (moves x y) d =
    if d.active
    then record d {
      box = record d.box {
        left = d.start_left +ℤ x -ℤ d.start_x;
        top = d.start_top +ℤ y -ℤ d.start_y;
      };
    }
    else d
drag releases d = if d.active then record d { active = false } else d

pub record Resize : Type 0 where
  pub box : Box
  pub resizing : Bool
  pub pointer : Option ℕ
  pub start_x : ℤ
  pub start_y : ℤ
  pub start_w : ℤ
  pub start_h : ℤ
  pub start_left : ℤ
  pub start_top : ℤ
  pub pending_w : ℤ
  pub pending_h : ℤ
  pub pending_left : Option ℤ
  pub pending_top : Option ℤ
  -- an animation frame has been asked for
  pub frame : Bool
  pub dir_e : Bool
  pub dir_s : Bool
  -- the pointer is captured, the class `shell-window-resizing` is set, the listeners on the page
  pub captured : Bool
  pub resizing_class : Bool
  pub listening : Bool
  -- `_shellResizeSyncTimer`, and whether the fitted stream is live
  pub sync_timer : Bool
  pub live : Bool
  pub fits : ℕ

pub data Corner : Type 0 where
  nw ne sw se : Corner

abbrev pub is_east : Corner → Bool
is_east nw = false
is_east ne = true
is_east sw = false
is_east se = true

abbrev pub is_south : Corner → Bool
is_south nw = false
is_south ne = false
is_south sw = true
is_south se = true

abbrev pub min_width : ℤ
min_width = pos 320

abbrev pub min_height : ℤ
min_height = pos 240

abbrev pub is_positive : ℤ → Bool
is_positive a = leb_ℤ (pos 1) a

abbrev pub or_old : Option ℤ → ℤ → ℤ
or_old none old = old
or_old (some a) old = a

-- The box with the size and place that are pending.
unfoldable pub pending_box : Resize → Box
pending_box r =
    if is_positive r.pending_w && is_positive r.pending_h
    then record {
      left = or_old r.pending_left r.box.left;
      top = or_old r.pending_top r.box.top;
      width = r.pending_w;
      height = r.pending_h;
    }
    else r.box

-- `applyPending`; the fit asks for a remote resize when `sync` is set.
unfoldable pub apply_pending : Bool → Resize → Resize
unfolding pending_box
apply_pending sync r = record r {
  box = pending_box r;
  fits = suc r.fits;
  sync_timer = (sync && r.live) || r.sync_timer;
}

abbrev pub is_pointer : Option ℕ → ℕ → Bool
is_pointer none p = false
is_pointer (some q) p = p == q

abbrev pub grown : Bool → ℤ → ℤ → ℤ → ℤ
grown forward least start delta = max_ℤ least (if forward then start +ℤ delta else start -ℤ delta)

abbrev pub shifted : Bool → ℤ → ℤ → ℤ → Option ℤ → Option ℤ
shifted forward at size pending_size old =
    if forward then old else some (at +ℤ (size -ℤ pending_size))

unfoldable pub moved : ℤ → ℤ → Resize → Resize
moved x y r =
    let w = grown r.dir_e min_width r.start_w (x -ℤ r.start_x) in
    let h = grown r.dir_s min_height r.start_h (y -ℤ r.start_y) in
    record r {
      pending_w = w;
      pending_h = h;
      pending_left = shifted r.dir_e r.start_left r.start_w w r.pending_left;
      pending_top = shifted r.dir_s r.start_top r.start_h h r.pending_top;
      frame = true;
    }

unfoldable pub on_move : ℕ → ℤ → ℤ → Resize → Resize
unfolding moved
on_move p x y r = if r.resizing && is_pointer r.pointer p then moved x y r else r

unfoldable pub on_frame : Resize → Resize
unfolding apply_pending
on_frame r =
    if r.frame
    then if r.resizing
      then apply_pending false (record r { frame = false })
      else record r { frame = false }
    else r

unfoldable pub finish : Resize → Resize
unfolding apply_pending
finish r =
    if r.resizing
    then record (apply_pending true
        (record r { resizing = false; frame = false; sync_timer = false })) {
          captured = false;
          pointer = none;
          resizing_class = false;
          listening = false;
        }
    else r

unfoldable pub on_up : ℕ → Resize → Resize
unfolding finish
on_up p r = if r.resizing && is_pointer r.pointer p then finish r else r

-- `is_mouse` and `button` say whether it is a mouse with another button than the main one.
unfoldable pub begin_resize : Bool → ℕ → ℕ → ℤ → ℤ → Corner → Resize → Resize
begin_resize is_mouse button p x y corner r =
    if is_mouse && not (button == 0) then r else record r {
      dir_e = is_east corner;
      dir_s = is_south corner;
      resizing = true;
      pointer = some p;
      start_x = x;
      start_y = y;
      start_w = r.box.width;
      start_h = r.box.height;
      start_left = r.box.left;
      start_top = r.box.top;
      pending_w = r.box.width;
      pending_h = r.box.height;
      pending_left = if is_east corner then none else some r.box.left;
      pending_top = if is_south corner then none else some r.box.top;
      resizing_class = true;
      captured = true;
      listening = true;
    }

-- What happens after the press: moves, frames, releases, and the loss of the pointer.
pub data Motion : Type 0 where
  drags : ℕ → ℤ → ℤ → Motion
  frames : Motion
  lifts : ℕ → Motion
  loses : Motion

unfoldable pub respond : Motion → Resize → Resize
unfolding on_move on_frame on_up finish
respond (drags p x y) r = on_move p x y r
respond frames r = on_frame r
respond (lifts p) r = on_up p r
respond loses r = finish r

unfoldable pub respond_all : List Motion → Resize → Resize
unfolding respond
respond_all [] r = r
respond_all (m ∷ ms) r = respond_all ms (respond m r)
