-- ===== src/Sessions/Snapshot.antt =====
-- What a snapshot leaves: `applySessionsSnapshot` of
-- internal/webui/assets/static/js/sessions.js.
use termcp.Base.{
  Bool, true, false, ◌||◌, Option, none, some, List, [], ◌∷◌, ◌++◌, map, ◌≡◌, refl, ap, sym, ◌∙◌,
  inl, inr, arith, Text, Dict, text_eq, text_eq_iff, lookup, delete, restrict, lookup-insert,
  lookup-delete, lookup-restrict, is_empty, is_some, keep_if, append-nil, append_assoc,
  if◌then◌else◌, Bool-cases, Option-cases,
}
use termcp.Window.{Win}
use termcp.Window.Channels.{lock_window_readonly, lock_channel, map_channels}
use termcp.Sessions.{
  Session, Registry, session_by_id, release_session_ui_state, remember_active, close_shell_window,
  reviewed, lock_if_dead, reconcile_found, is_loose, reconcile_one, reconcile, is_live,
  prune_dead_session_ui_state, apply_sessions_snapshot,
}

-- A window stays when it belongs to no session yet or to one of the list.
abbrev pub stays : Dict Session → Win → Bool
stays m w = is_loose w || is_live m w.parent_sid

-- The window of a dead session, locked.
abbrev pub locked : Win → Win
locked w = record w {
  locked_readonly = true;
  read_only = true;
  input_closed = true;
  dead_badge_added = true;
  channels = map_channels lock_channel w.channels;
}

abbrev pub followed : Option Session → Win → Win
followed none w = w
followed (some s) w = reviewed s (if s.running then w else locked w)

-- What becomes of a window that stays.
abbrev pub settled : Dict Session → Win → Win
settled m w = if is_loose w then w else followed (lookup w.parent_sid m) w

release-windows : (sid : Text) (r : Registry) → (release_session_ui_state sid r).windows ≡ r.windows
unfolding release_session_ui_state
release-windows [] r = refl
release-windows (c ∷ sid) r = refl

found-windows :
    (o : Option Session) (w : Win) (r : Registry)
    → (reconcile_found o w r).windows
      ≡ (if is_some o then r.windows ++ followed o w ∷ [] else r.windows)
unfolding reconcile_found close_shell_window lock_if_dead lock_window_readonly
found-windows none w r = release-windows w.parent_sid r
found-windows (some s) w r = elim (Bool-cases s.running) [ inl e ↦ rw e refl | inr e ↦ rw e refl ]

one-windows :
    (m : Dict Session) (w : Win) (r : Registry)
    → (reconcile_one m w r).windows
      ≡ (if stays m w then r.windows ++ settled m w ∷ [] else r.windows)
unfolding reconcile_one
one-windows m w r = elim (Bool-cases (is_loose w)) [
  | inl e ↦ rw e refl
  | inr e ↦ rw e (found-windows (lookup w.parent_sid m) w r)
]

kept :
    (b : Bool) (f : Win → Win) (w : Win) (vs ks : List Win)
    → (if b then vs ++ f w ∷ [] else vs) ++ map f ks ≡ vs ++ map f (if b then w ∷ ks else ks)
kept true f w vs ks = append_assoc vs (f w ∷ []) (map f ks)
kept false f w vs ks = refl

reconcile-windows :
    (m : Dict Session) (ws : List Win) (r : Registry)
    → (reconcile m ws r).windows ≡ r.windows ++ map (settled m) (keep_if (stays m) ws)
unfolding reconcile
reconcile-windows m [] r = sym (append-nil r.windows)
reconcile-windows m (w ∷ ws) r =
    reconcile-windows m ws (reconcile_one m w r)
    ∙ ap (λ vs. vs ++ map (settled m) (keep_if (stays m) ws)) (one-windows m w r)
    ∙ kept (stays m w) (settled m) w r.windows (keep_if (stays m) ws)

-- After a snapshot the windows are those that belong to no session yet or to a listed one, in the
-- order they had; those of a session that no longer runs are locked read-only, and each window of a
-- session has that session's review settings.
pub apply_sessions_snapshot-windows :
    (sessions : List Session) (r : Registry)
    → let m = session_by_id sessions [] in
      (apply_sessions_snapshot sessions r).windows ≡ map (settled m) (keep_if (stays m) r.windows)
unfolding apply_sessions_snapshot prune_dead_session_ui_state
apply_sessions_snapshot-windows sessions r =
    reconcile-windows (session_by_id sessions []) r.windows
      (record r { windows = []; snapshot = sessions })

-- What the page remembers under a key.
abbrev Same : Text → Registry → Registry → Type 0
Same j q r =
    (lookup j q.highlights ≡ lookup j r.highlights)
    × (lookup j q.selected ≡ lookup j r.selected)
    × (lookup j q.last_active ≡ lookup j r.last_active)

other_key :
    (m : Dict Session) (k j : Text) → lookup k m ≡ none → is_live m j ≡ true → text_eq k j ≡ false
other_key m k j gone live = elim (Bool-cases (text_eq k j)) [
  | inl e ↦
      let same : lookup j m ≡ none = ap (λ i. lookup i m) (sym ((text_eq_iff k j).0 e)) ∙ gone in
      absurd (ground (arith, same))
  | inr e ↦ e
]

lookup-delete_other :
    {V : Type 0} (k j : Text) (d : Dict V)
    → text_eq k j ≡ false
    → lookup j (delete k d) ≡ lookup j d
lookup-delete_other k j d e = lookup-delete k j d ∙ rw e refl

release-Same :
    (k j : Text) (r : Registry) → text_eq k j ≡ false → Same j (release_session_ui_state k r) r
unfolding release_session_ui_state
release-Same [] j r e = (refl, refl, refl)
release-Same (c ∷ k) j r e = (
  lookup-delete_other (c ∷ k) j r.highlights e,
  lookup-delete_other (c ∷ k) j r.selected e,
  lookup-delete_other (c ∷ k) j r.last_active e,
)

remember-other :
    (w : Win) (j : Text) (d : Dict Text)
    → text_eq w.parent_sid j ≡ false
    → lookup j (remember_active w d) ≡ lookup j d
unfolding remember_active
remember-other w j d e = elim (Bool-cases (is_empty w.parent_sid)) [
  | inl f ↦ rw f refl
  | inr f ↦ elim (Option-cases w.active_channel_sid) [
    | inl g ↦ rw (f, g) refl
    | inr (sid, g) ↦ elim (Bool-cases (is_empty sid)) [
      | inl k ↦ rw (f, g, k) refl
      | inr k ↦ rw (f, g, k) (lookup-insert w.parent_sid j sid d ∙ rw e refl)
    ]
  ]
]

found-Same :
    (m : Dict Session) (w : Win) (j : Text) (r : Registry)
    → is_live m j ≡ true
    → Same j (reconcile_found (lookup w.parent_sid m) w r) r
unfolding reconcile_found close_shell_window
found-Same m w j r live = elim (Option-cases (lookup w.parent_sid m)) [
  | inl gone ↦
      let e = other_key m w.parent_sid j gone live in
      let released = release-Same w.parent_sid j r e in
      rw (reconcile_found, gone)
        (
          released.0,
          released.1,
          remember-other w j (release_session_ui_state w.parent_sid r).last_active e ∙ released.2,
        )
  | inr (s, here) ↦ rw (reconcile_found, here) (refl, refl, refl)
]

one-Same :
    (m : Dict Session) (w : Win) (j : Text) (r : Registry)
    → is_live m j ≡ true
    → Same j (reconcile_one m w r) r
unfolding reconcile_one
one-Same m w j r live = elim (Bool-cases (is_loose w)) [
  | inl e ↦ rw e (refl, refl, refl)
  | inr e ↦ rw e (found-Same m w j r live)
]

reconcile-Same :
    (m : Dict Session) (ws : List Win) (j : Text) (r : Registry)
    → is_live m j ≡ true
    → Same j (reconcile m ws r) r
unfolding reconcile
reconcile-Same m [] j r live = (refl, refl, refl)
reconcile-Same m (w ∷ ws) j r live =
    let ih = reconcile-Same m ws j (reconcile_one m w r) live in
    let one = one-Same m w j r live in (ih.0 ∙ one.0, ih.1 ∙ one.1, ih.2 ∙ one.2)

only_live :
    {V : Type 0} (m : Dict Session) (j : Text) (d e : Dict V)
    → (is_live m j ≡ true → lookup j d ≡ lookup j e)
    → lookup j (restrict (is_live m) d) ≡ (if is_live m j then lookup j e else none)
only_live m j d e h = elim (Bool-cases (is_live m j)) [
  | inl f ↦ lookup-restrict (is_live m) j d ∙ rw f (h f)
  | inr f ↦ lookup-restrict (is_live m) j d ∙ rw f refl
]

-- After a snapshot the page remembers of each listed session what it remembered before, its
-- highlight, its selection and its last tab, and nothing of a session that is not listed.
pub apply_sessions_snapshot-remembers :
    (sessions : List Session) (r : Registry) (j : Text)
    → let m = session_by_id sessions [] in
      let q = apply_sessions_snapshot sessions r in
      (lookup j q.highlights ≡ (if is_live m j then lookup j r.highlights else none))
      × (lookup j q.selected ≡ (if is_live m j then lookup j r.selected else none))
      × (lookup j q.last_active ≡ (if is_live m j then lookup j r.last_active else none))
unfolding apply_sessions_snapshot prune_dead_session_ui_state
apply_sessions_snapshot-remembers sessions r j =
    let m = session_by_id sessions [] in
    let start = record r { windows = []; snapshot = sessions } in
    let q = reconcile m r.windows start in
    let same = λ (live : is_live m j ≡ true). reconcile-Same m r.windows j start live in
    (
      only_live m j q.highlights r.highlights (λ live. (same live).0),
      only_live m j q.selected r.selected (λ live. (same live).1),
      only_live m j q.last_active r.last_active (λ live. (same live).2),
    )
