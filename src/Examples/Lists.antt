-- ===== src/Examples/Lists.antt =====
-- A page with the windows of a live, a dead and a deleted session, and what the theorems say of it.
use termcp.Base.{
  true, false, none, List, [], ◌∷◌, map, Text, ◌≡◌, codes, lookup, keep_if, if◌then◌else◌,
}
use termcp.Window.{Win}
use termcp.Sessions.{Session, Registry, session_by_id, is_live, apply_sessions_snapshot}
use termcp.Sessions.Snapshot.{
  stays, settled, apply_sessions_snapshot-windows, apply_sessions_snapshot-remembers,
}
use termcp.Examples.Windows.{two_tabs, quiet}

abbrev of_session : Text → Win
of_session sid = record (two_tabs false) { sid = sid; parent_sid = sid }

abbrev pub registry : Registry
registry = record {
  windows = of_session (codes "s") ∷ of_session (codes "gone") ∷ of_session (codes "dead") ∷ [];
  outbox = quiet;
  highlights = (codes "gone", true) ∷ (codes "s", true) ∷ [];
  selected = [];
  last_active = [];
  snapshot = [];
}

abbrev pub sessions : List Session
sessions =
    record {
      id = codes "s";
      running = true;
      approval_need = 0;
      approval_mode = true;
      name = [];
      reason = [];
    }
    ∷ record {
      id = codes "dead";
      running = false;
      approval_need = 2;
      approval_mode = false;
      name = [];
      reason = [];
    }
    ∷ []

apply_sessions_snapshot-windows_example :
    (apply_sessions_snapshot sessions registry).windows
    ≡ map
        (settled (session_by_id sessions []))
        (keep_if (stays (session_by_id sessions [])) registry.windows)
apply_sessions_snapshot-windows_example = apply_sessions_snapshot-windows sessions registry

apply_sessions_snapshot-remembers_example :
    let m = session_by_id sessions [] in
    let q = apply_sessions_snapshot sessions registry in
    (lookup (codes "s") q.highlights
      ≡ (if is_live m (codes "s") then lookup (codes "s") registry.highlights else none))
    × (lookup (codes "s") q.selected
        ≡ (if is_live m (codes "s") then lookup (codes "s") registry.selected else none))
    × (lookup (codes "s") q.last_active
        ≡ (if is_live m (codes "s") then lookup (codes "s") registry.last_active else none))
apply_sessions_snapshot-remembers_example =
    apply_sessions_snapshot-remembers sessions registry (codes "s")
