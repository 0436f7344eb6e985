-- ===== src/Launch/Identity.antt =====
-- What the operations on an opened window do not touch: a predicate on the node of a window, its
-- state of connecting and the name it connects under.
-- internal/webui/assets/static/js/terminal-view.js and shell-windows.js.
use termcp.Base.{
  ℕ, Bool, true, false, not, ◌&&◌, ◌||◌, Option, none, some, List, [], ◌∷◌, ◌++◌, Text, ◌≡◌, refl,
  All-append, Bool-cases, inl, inr, if◌then◌else◌, is_some, keep_if, lookup, is_empty,
}
use termcp.Window.{Win}
use termcp.Window.Outbox.{Outbox}
use termcp.Window.Channels.{
  create_channel_tab, switch_channel_tab, show_channel_empty, lock_window_readonly, select,
  open_tab, switch_cases, create_cases,
}
use termcp.Window.Sync.{ShellInfo, shell_key}
use termcp.Layout.{Page, is_node, is_tiled, tile_window}
use termcp.Layout.Actions.{
  Viewport, window_of, position_window, restore_shell_window, expand_shell_window,
}
use termcp.Layout.Each.{All-find}
use termcp.Layout.Life.Everywhere.{
  Holds, Everywhere, change_window-Everywhere, bring_to_front-Everywhere, tile_window-Everywhere,
  apply_pane_grid-Everywhere, show_all_windows-Everywhere, restore-Everywhere, mobile_mode-Holds,
}
use termcp.Sessions.{Session}
use termcp.Launch.{
  Windows, counted, new_win, add_window, seed_approval, placed, mount, show_all_if_hidden,
  open_pane_workspace,
}
use termcp.Launch.Focus.{on_window, unmax_other, raised, lock_window, focus_found}
use termcp.Launch.Shells.{
  create_tabs, restore_tabs, restore_shells, has_running, with_primary, restore_active, lock_if,
}

module _ (Q : ℕ → Bool → Text → Type 0) where
  pub window_of-Holds :
      (n : ℕ) (p : Page) (w : Win) → window_of n p ≡ some w → Everywhere Q p → Holds Q w
  window_of-Holds n p w e v =
      All-find (Holds Q) n (p.floating ++ p.panes) w e
        (All-append (Holds Q) p.floating p.panes v.on_floating v.on_panes)

  pub on_found-Everywhere :
      (n : ℕ) (f : Outbox × Win → Outbox × Win) (o : Option Win) (d : Windows)
      → window_of n d.page ≡ o
      → ((b : Outbox) (w : Win) → Holds Q w → Holds Q (f (b, w)).1)
      → Everywhere Q d.page
      → Everywhere Q (on_window n f o d).page
  on_found-Everywhere n f none d e k v = v
  on_found-Everywhere n f (some w) d e k v =
      change_window-Everywhere Q n _ d.page (λ u h. k d.outbox w (window_of-Holds n d.page w e v)) v

  pub switch_channel_tab-Holds :
      (sid : Text) (w : Win) → Holds Q w → Holds Q (switch_channel_tab sid w)
  unfolding select
  switch_channel_tab-Holds sid w h = switch_cases (Holds Q) sid w h (λ ch e. h)

  pub create_channel_tab-Holds :
      (sid : Text) (b : Bool) (w : Win) → Holds Q w → Holds Q (create_channel_tab sid b w)
  unfolding open_tab
  create_channel_tab-Holds sid b w h =
      create_cases (Holds Q) sid b w (λ ch e. switch_channel_tab-Holds sid w h) (λ e. h)

  create_tabs-Holds :
      (b : Bool) (ss : List ShellInfo) (w : Win) → Holds Q w → Holds Q (create_tabs b ss w)
  unfolding create_tabs
  create_tabs-Holds b [] w h = h
  create_tabs-Holds b (s ∷ ss) w h =
      create_tabs-Holds b ss _ (create_channel_tab-Holds (shell_key s) b w h)

  lock_window_readonly-Holds :
      (o : Outbox) (w : Win) → Holds Q w → Holds Q (lock_window_readonly (o, w)).1
  unfolding lock_window_readonly
  lock_window_readonly-Holds o w h = h

  lock_if-Holds : (b : Bool) (o : Outbox) (w : Win) → Holds Q w → Holds Q (lock_if b (o, w)).1
  lock_if-Holds true o w h = lock_window_readonly-Holds o w h
  lock_if-Holds false o w h = h

  restore_active-Holds : (o : Option Text) (w : Win) → Holds Q w → Holds Q (restore_active o w)
  restore_active-Holds none w h = h
  restore_active-Holds (some sid) w h = elim (Bool-cases (is_some (lookup sid w.channels))) [
    | inl e ↦ rw e (switch_channel_tab-Holds sid w h)
    | inr e ↦ rw e h
  ]

  pub restore_tabs-Holds :
      (b : Bool) (last : Option Text) (ss : List ShellInfo) (o : Outbox) (w : Win)
      → Holds Q w
      → Holds Q (restore_tabs b last ss (o, w)).1
  unfolding restore_tabs show_channel_empty
  restore_tabs-Holds b last [] o w h = lock_if-Holds b o (show_channel_empty true w) h
  restore_tabs-Holds b last (s ∷ ss) o w h =
      let made = create_tabs false (s ∷ ss) (with_primary (shell_key s) w) in
      lock_if-Holds b o (restore_active last made) (
        restore_active-Holds last made
          (create_tabs-Holds false (s ∷ ss) (with_primary (shell_key s) w) h))

  pub restore_shells-Holds :
      (b : Bool) (last : Option Text) (ss : List ShellInfo) (o : Outbox) (w : Win)
      → Holds Q w
      → Holds Q (restore_shells b last ss (o, w)).1
  unfolding restore_shells
  restore_shells-Holds b last ss o w h =
      elim (Bool-cases (not (has_running ss) && (not (is_empty ss) && not b))) [
        | inl e ↦ rw e (create_tabs-Holds true ss w h)
        | inr e ↦ rw e (restore_tabs-Holds b last (keep_if (λ t. b || t.running) ss) o w h)
      ]

  if-Everywhere :
      (b : Bool) (p q : Page) → Everywhere Q p → Everywhere Q q → Everywhere Q (if b then p else q)
  if-Everywhere true p q v u = v
  if-Everywhere false p q v u = u

  show_all_if_hidden-Everywhere : (p : Page) → Everywhere Q p → Everywhere Q (show_all_if_hidden p)
  show_all_if_hidden-Everywhere p v =
      if-Everywhere p.wins_hidden _ p (show_all_windows-Everywhere Q p v) v

  open_pane_workspace-Everywhere :
      (p : Page) → Everywhere Q p → Everywhere Q (open_pane_workspace p)
  unfolding open_pane_workspace
  open_pane_workspace-Everywhere p v =
      apply_pane_grid-Everywhere Q (record p { workspace_open = true })
        (record { on_floating = v.on_floating; on_panes = v.on_panes })

  tiled_if-Everywhere :
      (n : ℕ) (p : Page)
      → Everywhere Q p
      → Everywhere Q (if p.tile_mode then open_pane_workspace (tile_window n p) else p)
  tiled_if-Everywhere n p v =
      if-Everywhere p.tile_mode _ p
        (open_pane_workspace-Everywhere _ (tile_window-Everywhere Q n p v)) v

  mount-Everywhere : (w : Win) (p : Page) → Holds Q w → Everywhere Q p → Everywhere Q (mount w p)
  unfolding mount
  mount-Everywhere w p h v =
      let start : Everywhere Q (record p { floating = p.floating ++ w ∷ [] }) = record {
        on_floating = All-append (Holds Q) p.floating (w ∷ []) v.on_floating (h, tt);
        on_panes = v.on_panes;
      } in
      show_all_if_hidden-Everywhere _
        (tiled_if-Everywhere w.node _ (bring_to_front-Everywhere Q w.node _ start))

  placed-Holds : (b : Bool) (v : Viewport) (w : Win) → Holds Q w → Holds Q (placed b v w)
  unfolding position_window
  placed-Holds true v w h = mobile_mode-Holds Q true w h
  placed-Holds false v w h = h

  pub add_window-Everywhere :
      (f : Win → Win) (d : Windows)
      → Holds Q (f (new_win (counted d)))
      → Everywhere Q d.page
      → Everywhere Q (add_window f d).page
  unfolding add_window
  add_window-Everywhere f d h v =
      mount-Everywhere _ d.page (placed-Holds d.page.mobile _ (f (new_win (counted d))) h) v

  pub seed_approval-Holds : (o : Option Session) (w : Win) → Holds Q w → Holds Q (seed_approval o w)
  unfolding seed_approval
  seed_approval-Holds none w h = h
  seed_approval-Holds (some s) w h = h

  unmax_other-Everywhere : (n : ℕ) (p : Page) → Everywhere Q p → Everywhere Q (unmax_other n p)
  unfolding unmax_other
  unmax_other-Everywhere n p v =
      if-Everywhere (is_tiled n p && (is_some p.pane_maxed && not (is_node p.pane_maxed n))) _ p
        (apply_pane_grid-Everywhere Q (record p { pane_maxed = none })
          (record { on_floating = v.on_floating; on_panes = v.on_panes }))
        v

  expand-Holds : (w : Win) → Holds Q w → Holds Q (expand_shell_window w)
  unfolding expand_shell_window
  expand-Holds w h = elim (Bool-cases w.collapsed) [ inl e ↦ simp e h | inr e ↦ simp e h ]

  raised-Everywhere : (n : ℕ) (p : Page) → Everywhere Q p → Everywhere Q (raised n p)
  unfolding raised restore_shell_window
  raised-Everywhere n p v = bring_to_front-Everywhere Q n _ (
      unmax_other-Everywhere n _ (
        change_window-Everywhere Q n expand_shell_window _ expand-Holds
          (restore-Everywhere Q n (window_of n p) p v)))

  pub focus_found-Everywhere :
      (n : ℕ) (b : Bool) (d : Windows) → Everywhere Q d.page → Everywhere Q (focus_found n b d).page
  unfolding focus_found lock_window
  focus_found-Everywhere n true d v = show_all_if_hidden-Everywhere _ (
      on_found-Everywhere n lock_window_readonly _ (record d { page = raised n d.page }) refl
        lock_window_readonly-Holds (raised-Everywhere n d.page v))
  focus_found-Everywhere n false d v =
      show_all_if_hidden-Everywhere (raised n d.page) (raised-Everywhere n d.page v)
