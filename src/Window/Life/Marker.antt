-- ===== src/Window/Life/Marker.antt =====
-- The end markers of channels: `showTerminalEndedMarker` and its callers in
-- internal/webui/assets/static/js/sessions.js, ui-socket.js and terminal-view.js.
use termcp.Base.{
  ℕ, Bool, true, false, not, ◌&&◌, ◌||◌, ◌≤◌, some, List, [], ◌∷◌, Text, Dict, ◌≡◌, refl, sym, ◌∙◌,
  subst, inl, inr, arith, lookup, Option-cases, Bool-cases, if◌then◌else◌, keys, is_some,
}
use termcp.Window.{Win, Channel}
use termcp.Window.Outbox.{Outbox}
use termcp.Window.Channels.{
  is_active, show_terminal_ended_marker, lock_channel, terminal_done, history_finished,
  lock_window_readonly, new_channel, create_channel_tab, close_channel_tab, switch_channel_tab,
  modify_channel,
}
use termcp.Window.Frame.{
  channels-switch, create_channel_tab-SameShell, close_channel_tab-SameShell,
  switch_channel_tab-SameShell,
}
use termcp.Window.Sync.{
  ShellInfo, shell_key, add_missing, add_snapshot, add_exited, add_running_one, add_running, listed,
  prune_one, prune, sync_window_tabs,
}
use termcp.Window.Life.{Event, creates, selects, closes, ends, loads, locks, syncs, step, run}
use termcp.Window.Life.Every.{Every, Every-map, Every-create, Every-close, Every-modify}

-- A property that each change of a channel keeps, in a window that is read-only or not as `b` says.
record Kept (b : Bool) (P : Channel → Type 0) : Type 0 where
  fresh : (history : Bool) (index : ℕ) → P (new_channel history index)
  ended : (ch : Channel) → P ch → P (show_terminal_ended_marker (record ch { stream_done = true }))
  loaded :
      (ch : Channel)
      → (b || ch.read_only_history) ≡ false
      → P ch
      → P (record ch { history_loaded = true })
  marked :
      (ch : Channel)
      → (b || ch.read_only_history) ≡ true
      → P ch
      → P (show_terminal_ended_marker (record ch { history_loaded = true }))

module _ (b : Bool) (P : Channel → Type 0) (k : Kept b P) where
  Good : Win → Type 0
  Good w = (w.read_only ≡ b) × Every P w.channels

  Good-create :
      (sid : Text) (history : Bool) (w : Win) → Good w → Good (create_channel_tab sid history w)
  unfolding Good
  Good-create sid history w (r, h) = (
    (create_channel_tab-SameShell sid history w).1 ∙ r,
    Every-create P sid history w (k.fresh history) h,
  )

  Good-close : (sid : Text) (o : Outbox) (w : Win) → Good w → Good (close_channel_tab sid (o, w)).1
  unfolding Good
  Good-close sid o w (r, h) = ((close_channel_tab-SameShell sid o w).1 ∙ r, Every-close P sid o w h)

  read_only-modify :
      (sid : Text) (f : Channel → Channel) (w : Win)
      → (modify_channel sid f w).read_only ≡ w.read_only
  unfolding modify_channel
  read_only-modify sid f w = elim (Option-cases (lookup sid w.channels)) [
    | inl e ↦ rw (e, modify_channel) refl
    | inr (ch, e) ↦ rw (e, modify_channel) refl
  ]

  Good-modify :
      (sid : Text) (f : Channel → Channel) (w : Win)
      → ((ch : Channel) → lookup sid w.channels ≡ some ch → P ch → P (f ch))
      → Good w
      → Good (modify_channel sid f w)
  unfolding Good
  Good-modify sid f w keep (r, h) = (read_only-modify sid f w ∙ r, Every-modify P sid f w keep h)

  Good-missing : (sid : Text) (history : Bool) (w : Win) → Good w → Good (add_missing sid history w)
  unfolding add_missing
  Good-missing sid history w h = elim (Bool-cases (is_some (lookup sid w.channels))) [
    | inl e ↦ rw e h
    | inr e ↦ rw e (Good-create sid history w h)
  ]

  Good-snapshot : (shells : List ShellInfo) (w : Win) → Good w → Good (add_snapshot shells w)
  unfolding add_snapshot
  Good-snapshot [] w h = h
  Good-snapshot (s ∷ shells) w h = Good-snapshot shells _ (Good-missing (shell_key s) false w h)

  Good-exited : (shells : List ShellInfo) (w : Win) → Good w → Good (add_exited shells w)
  unfolding add_exited
  Good-exited [] w h = h
  Good-exited (s ∷ shells) w h = elim (Bool-cases s.running) [
    | inl e ↦ simp e (Good-exited shells w h)
    | inr e ↦ simp e (Good-exited shells _ (Good-missing (shell_key s) true w h))
  ]

  Good-running_one : (s : ShellInfo) (w : Win) → Good w → Good (add_running_one s w)
  unfolding add_running_one
  Good-running_one s w h = elim (Bool-cases s.running) [
    | inr e ↦ simp e h
    | inl e ↦ elim (Bool-cases (is_active w.primary_shell_id (shell_key s))) [
      | inl root ↦ simp (e, root) h
      | inr other ↦ simp (e, other) (Good-missing (shell_key s) false w h)
    ]
  ]

  Good-running : (shells : List ShellInfo) (w : Win) → Good w → Good (add_running shells w)
  unfolding add_running
  Good-running [] w h = h
  Good-running (s ∷ shells) w h = Good-running shells _ (Good-running_one s w h)

  Good-prune :
      (shells : List ShellInfo) (sids : List Text) (o : Outbox) (w : Win)
      → Good w
      → Good (prune shells sids (o, w)).1
  unfolding prune prune_one
  Good-prune shells [] o w h = h
  Good-prune shells (sid ∷ sids) o w h = elim (Bool-cases (is_active w.primary_shell_id sid)) [
    | inl e ↦ simp e (Good-prune shells sids o w h)
    | inr e ↦ elim (Bool-cases (listed sid shells)) [
      | inl there ↦ simp (e, there) (Good-prune shells sids o w h)
      | inr gone ↦ simp (e, gone) (Good-prune shells sids _ _ (Good-close sid o w h))
    ]
  ]

  Good-sync :
      (shells : List ShellInfo) (o : Outbox) (w : Win)
      → Good w
      → Good (sync_window_tabs shells (o, w)).1
  unfolding sync_window_tabs
  Good-sync shells o w h =
      let x = add_exited shells w in
      let u = add_running shells x in
      elim (Bool-cases w.read_only) [
        | inl dead ↦ simp dead (Good-snapshot shells w h)
        | inr live ↦ simp live (
            Good-prune shells (keys u.channels) o u
              (Good-running shells x (Good-exited shells w h)))
      ]

  -- The channel that is looked up twice is one.
  same_view :
      (sid : Text) (v : Bool) (w : Win) (ch c : Channel)
      → w.read_only ≡ b
      → lookup sid w.channels ≡ some ch
      → lookup sid w.channels ≡ some c
      → (w.read_only || ch.read_only_history) ≡ v
      → (b || c.read_only_history) ≡ v
  same_view sid v w ch c r e f h = cc

  Good-loaded : (sid : Text) (o : Outbox) (w : Win) → Good w → Good (history_finished sid (o, w)).1
  unfolding history_finished Good
  Good-loaded sid o w h = elim (Option-cases (lookup sid w.channels)) [
    | inl e ↦ rw (e, history_finished) h
    | inr (ch, e) ↦ elim (Bool-cases (w.read_only || ch.read_only_history)) [
      | inl over ↦
          rw (e, history_finished)
            (simp over (
              Good-modify sid _ w (λ c f p. k.marked c (same_view sid true w ch c h.0 e f over) p)
                h))
      | inr live ↦
          rw (e, history_finished)
            (simp live (
              Good-modify sid _ w (λ c f p. k.loaded c (same_view sid false w ch c h.0 e f live) p)
                h))
    ]
  ]

-- The marker lines of a channel in step with its stream, whether its history is on screen, and whether
-- the view is read-only, as `b` says of its window.
pub record IsMarked (b : Bool) (ch : Channel) : Type 0 where
  pub once : ch.marker_lines ≡ (if ch.ended_mark_printed then 1 else 0)
  pub ended : (not ch.ended_mark_printed || (ch.stream_done || b)) ≡ true
  pub kept : (not ch.read_only_history || ch.stream_done) ≡ true
  pub told :
      (not ch.stream_done
        || (ch.ended_mark_printed || (not ch.history_loaded && (b || ch.read_only_history))))
      ≡ true

marks : (b : Bool) → Kept b (IsMarked b)
unfolding show_terminal_ended_marker
marks b = record {
  fresh = λ history index. record {
    once = refl;
    ended = refl;
    kept = ground arith;
    told = ground arith;
  };
  ended = λ ch h. record {
    once = ground (arith, h.once);
    ended = ground (arith, h.ended);
    kept = ground arith;
    told = ground arith;
  };
  loaded = λ ch live h. record {
    once = h.once;
    ended = h.ended;
    kept = h.kept;
    told = ground (arith, live, h.told);
  };
  marked = λ ch over h. record {
    once = ground (arith, h.once);
    ended = ground (arith, h.ended, h.kept, over);
    kept = ground (arith, h.kept);
    told = ground arith;
  };
}

lock-IsMarked : (b : Bool) (ch : Channel) → IsMarked b ch → IsMarked true (lock_channel ch)
unfolding lock_channel show_terminal_ended_marker
lock-IsMarked b ch h = record {
  once = ground (arith, h.once);
  ended = ground arith;
  kept = ground arith;
  told = ground arith;
}

-- Every channel of a window is marked as the window is.
abbrev pub AllMarked : Win → Type 0
AllMarked w = Every (IsMarked w.read_only) w.channels

Good-AllMarked :
    (w u : Win) → Good w.read_only (IsMarked w.read_only) (marks w.read_only) u → AllMarked u
unfolding Good
Good-AllMarked w u (r, h) = subst (λ b. Every (IsMarked b) u.channels) (sym r) h

AllMarked-Good :
    (w : Win) → AllMarked w → Good w.read_only (IsMarked w.read_only) (marks w.read_only) w
unfolding Good
AllMarked-Good w h = (refl, h)

select-AllMarked : (sid : Text) (w : Win) → AllMarked w → AllMarked (switch_channel_tab sid w)
unfolding Good
select-AllMarked sid w h = Good-AllMarked w (switch_channel_tab sid w) (
  (switch_channel_tab-SameShell sid w).1,
  subst (Every (IsMarked w.read_only)) (sym (channels-switch sid w)) h,
)

done-AllMarked : (sid : Text) (w : Win) → AllMarked w → AllMarked (terminal_done sid w)
unfolding terminal_done
done-AllMarked sid w h =
    let b = w.read_only in
    let told = λ (ch : Channel). show_terminal_ended_marker (record ch { stream_done = true }) in
    Good-AllMarked w (modify_channel sid told w) (
      Good-modify b (IsMarked b) (marks b) sid told w (λ ch _ p. (marks b).ended ch p)
        (AllMarked-Good w h))

lock-AllMarked : (o : Outbox) (w : Win) → AllMarked w → AllMarked (lock_window_readonly (o, w)).1
unfolding lock_window_readonly
lock-AllMarked o w h =
    Every-map (IsMarked w.read_only) (IsMarked true) lock_channel w.channels
      (lock-IsMarked w.read_only) h

step-AllMarked : (e : Event) (o : Outbox) (w : Win) → AllMarked w → AllMarked (step e (o, w)).1
unfolding step
step-AllMarked (creates sid history) o w h =
    let b = w.read_only in
    Good-AllMarked w (create_channel_tab sid history w)
      (Good-create b (IsMarked b) (marks b) sid history w (AllMarked-Good w h))
step-AllMarked (selects sid) o w h = select-AllMarked sid w h
step-AllMarked (closes sid) o w h =
    let b = w.read_only in
    Good-AllMarked w (close_channel_tab sid (o, w)).1
      (Good-close b (IsMarked b) (marks b) sid o w (AllMarked-Good w h))
step-AllMarked (ends sid) o w h = done-AllMarked sid w h
step-AllMarked (loads sid) o w h =
    let b = w.read_only in
    Good-AllMarked w (history_finished sid (o, w)).1
      (Good-loaded b (IsMarked b) (marks b) sid o w (AllMarked-Good w h))
step-AllMarked locks o w h = lock-AllMarked o w h
step-AllMarked (syncs shells) o w h =
    let b = w.read_only in
    Good-AllMarked w (sync_window_tabs shells (o, w)).1
      (Good-sync b (IsMarked b) (marks b) shells o w (AllMarked-Good w h))

run-AllMarked : (es : List Event) (o : Outbox) (w : Win) → AllMarked w → AllMarked (run es (o, w)).1
unfolding run
run-AllMarked [] o w h = h
run-AllMarked (e ∷ es) o w h =
    let (o', u) = step e (o, w) in run-AllMarked es o' u (step-AllMarked e o w h)

-- What a channel shows of its end, in a window that is read-only or not as `b` says.
pub record Tells (b : Bool) (ch : Channel) : Type 0 where
  pub at_most_once : ch.marker_lines ≤ 1
  pub shown : (ch.stream_done && ch.history_loaded) ≡ true → ch.marker_lines ≡ 1
  pub silent : (ch.stream_done || b) ≡ false → ch.marker_lines ≡ 0

IsMarked-Tells : (b : Bool) (ch : Channel) → IsMarked b ch → Tells b ch
IsMarked-Tells b ch h = record {
  at_most_once = ground (arith, h.once);
  shown = λ e. ground (arith, e, h.once, h.told);
  silent = λ e. ground (arith, e, h.once, h.ended);
}

Every-Tells : (b : Bool) (m : Dict Channel) → Every (IsMarked b) m → Every (Tells b) m
Every-Tells b [] h = tt
Every-Tells b ((k, ch) ∷ m) h = (IsMarked-Tells b ch h.0, Every-Tells b m h.1)

-- From a window whose channels are marked as it is, and whatever happens to it, in whatever order: no
-- channel shows the end marker twice; one whose stream has ended and whose history is on screen shows
-- it once; and one whose stream goes on shows none, unless the window is read-only.
pub run-Tells :
    (es : List Event) (o : Outbox) (w : Win)
    → AllMarked w
    → let u = (run es (o, w)).1 in Every (Tells u.read_only) u.channels
run-Tells es o w h =
    let u = (run es (o, w)).1 in Every-Tells u.read_only u.channels (run-AllMarked es o w h)
