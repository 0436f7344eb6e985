-- ===== src/Examples/Grids.antt =====
-- A grid of two sessions, one of them dead, and what the theorems say of it.
use termcp.Base.{
  arith, text_eq, restrict, insert, true, false, none, List, [], ◌∷◌, codes, ◌≡◌, refl, lookup,
}
use termcp.Sessions.{Registry, apply_sessions_snapshot}
use termcp.Sessions.Grid.{Grid, batch, dead, plain}
use termcp.Sessions.Grid.Runs.{
  Event, frame, checks, selects_all, presses, turns, confirms, answers, accepted, refused,
  react_all,
}
use termcp.Sessions.Grid.Listed.{IsMarked}
use termcp.Sessions.Grid.Marked.{react_all-IsMarked}
use termcp.Sessions.Grid.Deletion.{IsOver, run_of, run_of-refused, run_of-accepted}
use termcp.Examples.Lists.{registry, sessions}

abbrev empty_registry : Registry
empty_registry = record registry { windows = []; highlights = []; snapshot = [] }

abbrev empty_grid : Grid
empty_grid = record {
  registry = empty_registry;
  counts = [];
  tiles = [];
  empty_note = true;
  bar = record {
    all_checked = false;
    sel_all_title = [];
    sel_all_disabled = true;
    shown_count = none;
    del_disabled = true;
    del_title = plain [];
  };
  banner = none;
  toast = none;
  jobs = [];
  deletes = [];
}

empty_grid-IsMarked : IsMarked empty_grid
unfolding lookup
empty_grid-IsMarked = record { in_order = refl; marked = λ k h. ground arith }

abbrev day : List Event
day =
    frame sessions
    ∷ checks (codes "s") true
    ∷ selects_all
    ∷ presses batch
    ∷ turns 0 (confirms true)
    ∷ turns 0 (answers accepted)
    ∷ presses dead
    ∷ turns 0 (answers (refused (codes "no")))
    ∷ []

react_all-IsMarked_example : IsMarked (react_all day empty_grid)
react_all-IsMarked_example = react_all-IsMarked day empty_grid empty_grid-IsMarked

-- Both sessions are asked for and the second is refused.
two_deletes : (react_all day empty_grid).deletes ≡ codes "s" ∷ codes "dead" ∷ []
unfolding react_all text_eq apply_sessions_snapshot lookup restrict insert
two_deletes = refl

run_of-refused_example :
    IsOver empty_grid (codes "s" ∷ codes "dead" ∷ []) (codes "s" ∷ []) (
      run_of batch
        (codes "s")
        (codes "dead" ∷ [])
        (accepted ∷ refused (codes "no") ∷ [])
        empty_grid)
run_of-refused_example =
    run_of-refused batch (codes "s") (codes "dead" ∷ []) (codes "s" ∷ []) [] (codes "dead")
      (codes "no") empty_grid refl

run_of-accepted_example :
    IsOver empty_grid
      (codes "dead" ∷ [])
      (codes "dead" ∷ [])
      (run_of dead (codes "dead") [] (accepted ∷ []) empty_grid)
run_of-accepted_example = run_of-accepted dead (codes "dead") [] empty_grid
