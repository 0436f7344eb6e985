-- ===== src/Sessions/Grid/Marked.antt =====
-- Every event leaves the selected sessions marked: internal/webui/assets/static/js/sessions.js and
-- conn-form.js.
use termcp.Base.{
  ℕ, Bool, true, false, Option, none, some, List, [], ◌∷◌, Text, text_eq, lookup, lookup-delete,
  ◌≡◌, refl, sym, ap, ◌∙◌, arith, if◌then◌else◌,
}
use termcp.Window.{Win}
use termcp.Sessions.{Registry, close_shell_window}
use termcp.Sessions.Grid.{Grid, Label, Kind, Job, asking, deleting, ended}
use termcp.Sessions.Grid.Runs.{
  Turn, Event, confirms, answers, accepted, refused, frame, checks, selects_all, presses, turns,
  close_by_sid, close_one, window_with, press_delete, ask, confirm, forget_deleted, go_on, answered,
  turn, Answer, done_text, failed_text, job_at, react, react_all,
}
use termcp.Sessions.Grid.Listed.{
  IsMarked, same-IsMarked, check_tile-IsMarked, apply_frame-IsMarked, press_select_all-IsMarked,
  render_session_grid-IsMarked,
}

-- Closing a window does not concern the grid.
close_one-grid :
    (o : Option Win) (sid : Text) (r : Registry)
    → ((close_one o sid r).snapshot ≡ r.snapshot) × ((close_one o sid r).selected ≡ r.selected)
unfolding close_one close_shell_window
close_one-grid none sid r = (refl, refl)
close_one-grid (some w) sid r = (refl, refl)

pub close_by_sid-grid :
    (sid : Text) (r : Registry)
    → ((close_by_sid sid r).snapshot ≡ r.snapshot) × ((close_by_sid sid r).selected ≡ r.selected)
unfolding close_by_sid
close_by_sid-grid sid r = close_one-grid (window_with sid r.windows) sid r

pub forget_deleted-selected :
    (sid : Text) (g : Grid) (k : Text)
    → lookup k (forget_deleted sid g).registry.selected
      ≡ (if text_eq sid k then none else lookup k g.registry.selected)
unfolding forget_deleted
forget_deleted-selected sid g k =
    lookup-delete sid k (close_by_sid sid g.registry).selected
    ∙ ap (λ m. if text_eq sid k then none else lookup k m) (close_by_sid-grid sid g.registry).1

forget_deleted-IsMarked : (sid : Text) (g : Grid) → IsMarked g → IsMarked (forget_deleted sid g)
unfolding forget_deleted
forget_deleted-IsMarked sid g v =
    same-IsMarked g (forget_deleted sid g) refl (sym (close_by_sid-grid sid g.registry).0)
      (λ k h. ground (arith, h, forget_deleted-selected sid g k)) v

-- What is not drawn from the tiles, the snapshot or the selection.
quiet-IsMarked :
    (b t : Option Label) (js : List Job) (ds : List Text) (g : Grid)
    → IsMarked g
    → IsMarked (record g { banner = b; toast = t; jobs = js; deletes = ds })
quiet-IsMarked b t js ds g v = record { in_order = v.in_order; marked = v.marked }

press_delete-IsMarked : (k : Kind) (ts : List Text) (g : Grid) → IsMarked g → IsMarked (ask k ts g)
press_delete-IsMarked k [] g v = quiet-IsMarked g.banner _ g.jobs g.deletes g v
press_delete-IsMarked k (t ∷ ts) g v = quiet-IsMarked g.banner g.toast _ g.deletes g v

go_on-IsMarked :
    (k : Kind) (n : ℕ) (ts : List Text) (g : Grid) → IsMarked g → IsMarked (go_on k n ts g).1
unfolding go_on
go_on-IsMarked k n [] g v =
    render_session_grid-IsMarked g.registry.snapshot none
      (record g { banner = none; toast = some (done_text k n) }) refl
go_on-IsMarked k n (t ∷ ts) g v = quiet-IsMarked g.banner g.toast g.jobs _ g v

answered-IsMarked :
    (k : Kind) (n : ℕ) (sid : Text) (ts : List Text) (a : Answer) (g : Grid)
    → IsMarked g
    → IsMarked (answered k n sid ts a g).1
unfolding answered
answered-IsMarked k n sid ts accepted g v =
    go_on-IsMarked k n ts (forget_deleted sid g) (forget_deleted-IsMarked sid g v)
answered-IsMarked k n sid ts (refused msg) g v =
    render_session_grid-IsMarked g.registry.snapshot none
      (record g { banner = some (failed_text k msg) }) refl

confirm-IsMarked :
    (k : Kind) (sid : Text) (ts : List Text) (ok : Bool) (g : Grid)
    → IsMarked g
    → IsMarked (confirm k sid ts ok g).1
unfolding confirm
confirm-IsMarked k sid ts true g v = quiet-IsMarked _ g.toast g.jobs _ g v
confirm-IsMarked k sid ts false g v = v

turn-IsMarked : (t : Turn) (j : Job) (g : Grid) → IsMarked g → IsMarked (turn t j g).1
unfolding turn
turn-IsMarked (confirms ok) (asking k sid ts) g v = confirm-IsMarked k sid ts ok g v
turn-IsMarked (confirms ok) (deleting k n sid ts) g v = v
turn-IsMarked (confirms ok) ended g v = v
turn-IsMarked (answers a) (asking k sid ts) g v = v
turn-IsMarked (answers a) (deleting k n sid ts) g v = answered-IsMarked k n sid ts a g v
turn-IsMarked (answers a) ended g v = v

react-IsMarked : (e : Event) (g : Grid) → IsMarked g → IsMarked (react e g)
unfolding react press_delete
react-IsMarked (frame ss) g v = apply_frame-IsMarked ss g
react-IsMarked (checks sid on) g v = check_tile-IsMarked sid on g v
react-IsMarked selects_all g v = press_select_all-IsMarked g
react-IsMarked (presses k) g v = press_delete-IsMarked k _ g v
react-IsMarked (turns i t) g v =
    let next = turn t (job_at i g.jobs) g in
    quiet-IsMarked next.1.banner next.1.toast _ next.1.deletes next.1
      (turn-IsMarked t (job_at i g.jobs) g v)

-- Through any sequence of frames, clicks on check boxes, on the button that selects all and on those
-- that delete, and answers of the user and the server to any run of deletions, the grid has a tile for
-- each session of the last snapshot, in order, and the tile of every selected session is marked.
pub react_all-IsMarked : (es : List Event) (g : Grid) → IsMarked g → IsMarked (react_all es g)
unfolding react_all
react_all-IsMarked [] g v = v
react_all-IsMarked (e ∷ es) g v = react_all-IsMarked es (react e g) (react-IsMarked e g v)
