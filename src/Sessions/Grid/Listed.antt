-- ===== src/Sessions/Grid/Listed.antt =====
-- What the session grid shows of the selection: internal/webui/assets/static/js/sessions.js.
use termcp.Base.{
  Bool, true, false, not, ◌&&◌, Option, none, some, List, [], ◌∷◌, Text, Dict, text_eq, text_eq_iff,
  text_eq_self, lookup, restrict, lookup-insert, lookup-delete, lookup-restrict, any, map, ◌≡◌,
  refl, sym, ap, ◌∙◌, subst, arith, if◌then◌else◌, Bool-cases, inl, inr,
}
use termcp.Window.{Win}
use termcp.Sessions.{
  Session, Registry, close_shell_window, apply_sessions_snapshot, reconcile, reconcile_one,
  reconcile_found, prune_dead_session_ui_state, release_session_ui_state, session_by_id,
}
use termcp.Sessions.Snapshot.{apply_sessions_snapshot-remembers}
use termcp.Sessions.Grid.{
  Grid, SessTile, Label, is_selected, lists, tile_of, tiles_of, render_session_grid,
  update_session_batch_bar, set_checked, set_selected, select_each, check_tile, press_select_all,
  all_in, has_id, with_selected,
}
use termcp.Sessions.Grid.Runs.{apply_frame}

-- There is a tile of session `k` that is marked as selected.
abbrev pub is_marked : Text → List SessTile → Bool
is_marked k cs = any (λ c. text_eq c.sid k && c.selected) cs

-- The tiles are those of the sessions of the last snapshot, in order, and that of every selected
-- session is marked.
pub record IsMarked (g : Grid) : Type 0 where
  pub in_order : map (λ c. c.sid) g.tiles ≡ map (λ s. s.id) g.registry.snapshot
  pub marked : (k : Text) → is_selected g.registry.selected k ≡ true → is_marked k g.tiles ≡ true

tiles_of-sids :
    (g : Grid) (ss : List Session) → map (λ c. c.sid) (tiles_of g ss) ≡ map (λ s. s.id) ss
unfolding tiles_of tile_of
tiles_of-sids g [] = refl
tiles_of-sids g (s ∷ ss) = ap (λ xs. s.id ∷ xs) (tiles_of-sids g ss)

tiles_of-marked :
    (g : Grid) (ss : List Session) (k : Text)
    → is_selected g.registry.selected k ≡ true
    → lists ss k ≡ true
    → is_marked k (tiles_of g ss) ≡ true
unfolding tiles_of tile_of
tiles_of-marked g [] k h e = ground arith
tiles_of-marked g (s ∷ ss) k h e = ground (arith, h, e, text_eq_iff s.id k, tiles_of-marked g ss k)

-- What a drawn selection keeps is listed.
restricted :
    (m : Dict Bool) (ss : List Session) (k : Text)
    → is_selected (restrict (lists ss) m) k ≡ true
    → is_selected m k ≡ true × lists ss k ≡ true
restricted m ss k h = ground (arith, h, lookup-restrict (lists ss) k m)

pub render-snapshot :
    (ss : List Session) (banner : Option Label) (g : Grid)
    → (render_session_grid ss banner g).registry.snapshot ≡ g.registry.snapshot
unfolding render_session_grid update_session_batch_bar
render-snapshot [] banner g = refl
render-snapshot (s ∷ ss) banner g = refl

none-marked : (k : Text) (cs : List SessTile) → is_selected [] k ≡ true → is_marked k cs ≡ true
unfolding lookup
none-marked k cs h = ground arith

pub render_session_grid-IsMarked :
    (ss : List Session) (banner : Option Label) (g : Grid)
    → g.registry.snapshot ≡ ss
    → IsMarked (render_session_grid ss banner g)
unfolding render_session_grid update_session_batch_bar
render_session_grid-IsMarked [] banner g e = record {
  in_order = ap (map (λ s. s.id)) (sym e);
  marked = λ k h. none-marked k [] h;
}
render_session_grid-IsMarked (s ∷ ss) banner g e = record {
  in_order = tiles_of-sids g (s ∷ ss) ∙ ap (map (λ s. s.id)) (sym e);
  marked = λ k h.
      let (kept, listed) = restricted g.registry.selected (s ∷ ss) k h in
      tiles_of-marked g (s ∷ ss) k kept listed;
}

set_checked-sids :
    (sid : Text) (on : Bool) (cs : List SessTile)
    → map (λ c. c.sid) (set_checked sid on cs) ≡ map (λ c. c.sid) cs
unfolding set_checked
set_checked-sids sid on [] = refl
set_checked-sids sid on (c ∷ cs) = ground (arith, set_checked-sids sid on cs)

set_checked-on :
    (sid : Text) (cs : List SessTile)
    → any (λ c. text_eq c.sid sid) cs ≡ true
    → is_marked sid (set_checked sid true cs) ≡ true
unfolding set_checked
set_checked-on sid [] h = ground arith
set_checked-on sid (c ∷ cs) h = ground (arith, h, set_checked-on sid cs)

set_checked-else :
    (sid : Text) (on : Bool) (k : Text) (cs : List SessTile)
    → text_eq sid k ≡ false
    → is_marked k (set_checked sid on cs) ≡ is_marked k cs
unfolding set_checked
set_checked-else sid on k [] h = refl
set_checked-else sid on k (c ∷ cs) h = ground (
  arith,
  h,
  text_eq_iff c.sid sid,
  text_eq_iff c.sid k,
  text_eq_iff sid k,
  set_checked-else sid on k cs,
)

set_selected-selected :
    (sid : Text) (on : Bool) (m : Dict Bool) (k : Text)
    → is_selected (set_selected sid on m) k ≡ (if text_eq sid k then on else is_selected m k)
unfolding set_selected
set_selected-selected sid true m k = ground (arith, lookup-insert sid k true m)
set_selected-selected sid false m k = ground (arith, lookup-delete sid k m)

same-marked :
    (sid : Text) (on : Bool) (m : Dict Bool) (cs : List SessTile)
    → any (λ c. text_eq c.sid sid) cs ≡ true
    → is_selected (set_selected sid on m) sid ≡ true
    → is_marked sid (set_checked sid on cs) ≡ true
same-marked sid true m cs found e = set_checked-on sid cs found
same-marked sid false m cs found e =
    ground (arith, e, set_selected-selected sid false m sid, text_eq_self sid)

-- The check box of a tile and the mark that it sets.
check-marked :
    (sid : Text) (on : Bool) (m : Dict Bool) (cs : List SessTile) (k : Text)
    → any (λ c. text_eq c.sid sid) cs ≡ true
    → (is_selected m k ≡ true → is_marked k cs ≡ true)
    → is_selected (set_selected sid on m) k ≡ true
    → is_marked k (set_checked sid on cs) ≡ true
check-marked sid on m cs k found h e = elim (Bool-cases (text_eq sid k)) [
  | inl same ↦
      subst
        (λ j.
          is_selected (set_selected sid on m) j ≡ true → is_marked j (set_checked sid on cs) ≡ true)
        {x = sid} {y = k} ((text_eq_iff sid k).0 same) (same-marked sid on m cs found) e
  | inr other ↦
      set_checked-else sid on k cs other
      ∙ h (ground (arith, e, other, set_selected-selected sid on m k))
]

-- The state, without what the invariant does not speak of.
pub same-IsMarked :
    (f g : Grid)
    → f.tiles ≡ g.tiles
    → f.registry.snapshot ≡ g.registry.snapshot
    → ((k : Text)
        → is_selected g.registry.selected k ≡ true
        → is_selected f.registry.selected k ≡ true)
    → IsMarked f
    → IsMarked g
same-IsMarked f g t s h v = record {
  in_order = ap (map (λ c. c.sid)) (sym t) ∙ v.in_order ∙ ap (map (λ x. x.id)) s;
  marked = λ k e. ap (is_marked k) (sym t) ∙ v.marked k (h k e);
}

pub check_tile-IsMarked :
    (sid : Text) (on : Bool) (g : Grid) → IsMarked g → IsMarked (check_tile sid on g)
unfolding check_tile update_session_batch_bar
check_tile-IsMarked sid on g v = elim (Bool-cases (any (λ c. text_eq c.sid sid) g.tiles)) [
  | inl e ↦ rw e (record {
    in_order = set_checked-sids sid on g.tiles ∙ v.in_order;
    marked = λ k h. check-marked sid on g.registry.selected g.tiles k e (v.marked k) h;
  })
  | inr e ↦ rw e v
]

-- The snapshot is set once, and the selection only shrinks.
close_shell_window-snapshot :
    (w : Win) (r : Registry) → (close_shell_window w r).snapshot ≡ r.snapshot
unfolding close_shell_window
close_shell_window-snapshot w r = refl

close_shell_window-selected :
    (w : Win) (r : Registry) → (close_shell_window w r).selected ≡ r.selected
unfolding close_shell_window
close_shell_window-selected w r = refl

release-snapshot :
    (sid : Text) (r : Registry) → (release_session_ui_state sid r).snapshot ≡ r.snapshot
unfolding release_session_ui_state
release-snapshot sid r = ground arith

found-snapshot :
    (o : Option Session) (w : Win) (r : Registry) → (reconcile_found o w r).snapshot ≡ r.snapshot
unfolding reconcile_found
found-snapshot none w r =
    close_shell_window-snapshot w (release_session_ui_state w.parent_sid r)
    ∙ release-snapshot w.parent_sid r
found-snapshot (some s) w r = refl

one-snapshot :
    (m : Dict Session) (w : Win) (r : Registry) → (reconcile_one m w r).snapshot ≡ r.snapshot
unfolding reconcile_one
one-snapshot m w r = ground (arith, found-snapshot (lookup w.parent_sid m) w r)

reconcile-snapshot :
    (m : Dict Session) (ws : List Win) (r : Registry) → (reconcile m ws r).snapshot ≡ r.snapshot
unfolding reconcile
reconcile-snapshot m [] r = refl
reconcile-snapshot m (w ∷ ws) r = reconcile-snapshot m ws (reconcile_one m w r) ∙ one-snapshot m w r

apply-snapshot : (ss : List Session) (r : Registry) → (apply_sessions_snapshot ss r).snapshot ≡ ss
unfolding apply_sessions_snapshot prune_dead_session_ui_state
apply-snapshot ss r =
    reconcile-snapshot (session_by_id ss []) r.windows (record r { windows = []; snapshot = ss })

apply-selected :
    (ss : List Session) (r : Registry) (k : Text)
    → is_selected (apply_sessions_snapshot ss r).selected k ≡ true
    → is_selected r.selected k ≡ true
apply-selected ss r k h = ground (arith, h, (apply_sessions_snapshot-remembers ss r k).1)

pub apply_frame-IsMarked : (ss : List Session) (g : Grid) → IsMarked (apply_frame ss g)
unfolding apply_frame
apply_frame-IsMarked ss g =
    let start = record g { registry = record g.registry { snapshot = ss } } in
    let shown = render_session_grid ss none start in
    same-IsMarked shown (record shown { registry = apply_sessions_snapshot ss shown.registry }) refl
      (render-snapshot ss none start ∙ sym (apply-snapshot ss shown.registry))
      (apply-selected ss shown.registry) (render_session_grid-IsMarked ss none start refl)

pub press_select_all-IsMarked : (g : Grid) → IsMarked (press_select_all g)
unfolding press_select_all
press_select_all-IsMarked g =
    let ss = g.registry.snapshot in
    let m = g.registry.selected in
    render_session_grid-IsMarked ss none
      (with_selected (select_each (not (any has_id ss && all_in m ss)) ss m) g) refl
