-- ===== src/Layout/Life/Everywhere.antt =====
-- What the events of the layout do not touch: a predicate on the identity of a window, its node,
-- its state of connecting and the name it connects under, holds of every window after them if it
-- held before. internal/webui/assets/static/js/shell-windows.js.
use termcp.Base.{
  ℕ, Bool, true, false, ◌||◌, Option, none, some, List, [], ◌∷◌, ◌++◌, Text, map, ◌≡◌, refl, subst,
  sym, inl, inr, All, All-append, Bool-cases, Option-cases, if◌then◌else◌,
}
use termcp.Window.{Win}
use termcp.Layout.{
  Page, find_node, drop_node, is_tiled, change_window, mark_active, set_active_pane, mark_maxed,
  shown, first_node, in_list, present, apply_pane_grid, with_z, raise, bring_to_front, as_pane,
  tile_window, as_floating, leave_grid, untile_window, tile_all, untile_all, nodes, set_layout_mode,
  observe, grid_changed,
}
use termcp.Layout.Actions.{
  Viewport, minimize_found, restore_found, reopen_grid, toggle_maxed, toggle_floating_max,
  toggle_shell_window_max, first_maxed, escape_key, minimize_shell_window, restore_shell_window,
  hide_all_windows, show_all_windows, apply_window_viewport_mode, leave_mobile, position_window,
  viewport_changed, window_of, grid_if, toggled,
}
use termcp.Layout.Each.{All-drop, All-change, All-map, All-find, All-sink, All-set_hidden}
use termcp.Layout.Life.{
  Move, raises, tiles, untiles, maximises, minimises, restores, switches, escapes, observes, hides,
  shows, resizes, move,
}

module _ (Q : ℕ → Bool → Text → Type 0) where
  abbrev pub Holds : Win → Type 0
  Holds w = Q w.node w.placeholder w.pending_conn_name

  pub record Everywhere (p : Page) : Type 0 where
    pub on_floating : All Holds p.floating
    pub on_panes : All Holds p.panes

  All-mark_active : (a : Option ℕ) (ws : List Win) → All Holds ws → All Holds (mark_active a ws)
  unfolding mark_active
  All-mark_active a [] h = tt
  All-mark_active a (w ∷ ws) (h, hs) = (h, All-mark_active a ws hs)

  All-mark_maxed : (m : Option ℕ) (ws : List Win) → All Holds ws → All Holds (mark_maxed m ws)
  unfolding mark_maxed
  All-mark_maxed m [] h = tt
  All-mark_maxed m (w ∷ ws) (h, hs) = elim (Bool-cases w.minimized) [
    | inl e ↦ simp e (h, All-mark_maxed m ws hs)
    | inr e ↦ simp e (h, All-mark_maxed m ws hs)
  ]

  pub set_active_pane-Everywhere :
      (a : Option ℕ) (p : Page) → Everywhere p → Everywhere (set_active_pane a p)
  unfolding set_active_pane
  set_active_pane-Everywhere a p v = record {
    on_floating = v.on_floating;
    on_panes = All-mark_active a p.panes v.on_panes;
  }

  pub apply_pane_grid-Everywhere : (p : Page) → Everywhere p → Everywhere (apply_pane_grid p)
  unfolding apply_pane_grid
  apply_pane_grid-Everywhere p v =
      let m = present p.pane_maxed p.panes in
      let q : Everywhere (record p { panes = mark_maxed m p.panes }) = record {
        on_floating = v.on_floating;
        on_panes = All-mark_maxed m p.panes v.on_panes;
      } in
      elim (Bool-cases (in_list p.pane_active (shown p.panes))) [
        | inl e ↦ rw e q
        | inr e ↦ rw e (set_active_pane-Everywhere (first_node (shown p.panes)) _ q)
      ]

  raise-Everywhere : (w : Win) (p : Page) → Everywhere p → Everywhere (raise w p)
  unfolding raise
  raise-Everywhere w p v = elim (Bool-cases w.fullscreen) [
    | inl e ↦ rw e (record {
      on_floating =
          All-change Holds w.node (with_z 21000) _ (λ u h. h)
            (All-sink Holds w.node p.floating (λ z u h. h) v.on_floating);
      on_panes = All-sink Holds w.node p.panes (λ z u h. h) v.on_panes;
    })
    | inr e ↦ rw e (record {
      on_floating = All-change Holds w.node (with_z _) p.floating (λ u h. h) v.on_floating;
      on_panes = v.on_panes;
    })
  ]

  pub bring_to_front-Everywhere :
      (n : ℕ) (p : Page) → Everywhere p → Everywhere (bring_to_front n p)
  unfolding bring_to_front
  bring_to_front-Everywhere n p v = elim (Bool-cases (is_tiled n p)) [
    | inl e ↦ rw e (set_active_pane-Everywhere (some n) p v)
    | inr e ↦ elim (Option-cases (find_node n p.floating)) [
      | inl f ↦ rw (e, f) v
      | inr (w, f) ↦ rw (e, f) (raise-Everywhere w p v)
    ]
  ]

  pub tile_window-Everywhere : (n : ℕ) (p : Page) → Everywhere p → Everywhere (tile_window n p)
  unfolding tile_window
  tile_window-Everywhere n p v = elim (Bool-cases (is_tiled n p)) [
    | inl e ↦ rw e v
    | inr e ↦ elim (Option-cases (find_node n p.floating)) [
      | inl f ↦ rw (e, f) v
      | inr (w, f) ↦
          rw (e, f)
            (set_active_pane-Everywhere (some n)
              (record p { floating = drop_node n p.floating; panes = p.panes ++ as_pane w ∷ [] })
              (record {
                on_floating = All-drop Holds n p.floating v.on_floating;
                on_panes =
                    All-append Holds p.panes (as_pane w ∷ []) v.on_panes
                      (All-find Holds n p.floating w f v.on_floating, tt);
              }))
    ]
  ]

  leave_grid-Everywhere :
      (n : ℕ) (o : Option Win) (p : Page)
      → find_node n p.panes ≡ o
      → Everywhere p
      → Everywhere (leave_grid n o p)
  unfolding leave_grid
  leave_grid-Everywhere n none p e v = v
  leave_grid-Everywhere n (some w) p e v = bring_to_front-Everywhere n _ (record {
    on_floating =
        All-append Holds p.floating (as_floating w ∷ []) v.on_floating
          (All-find Holds n p.panes w e v.on_panes, tt);
    on_panes = All-drop Holds n p.panes v.on_panes;
  })

  tile_all-Everywhere : (ns : List ℕ) (p : Page) → Everywhere p → Everywhere (tile_all ns p)
  unfolding tile_all
  tile_all-Everywhere [] p v = v
  tile_all-Everywhere (n ∷ ns) p v = tile_all-Everywhere ns _ (tile_window-Everywhere n p v)

  untile_all-Everywhere : (ns : List ℕ) (p : Page) → Everywhere p → Everywhere (untile_all ns p)
  unfolding untile_all untile_window
  untile_all-Everywhere [] p v = v
  untile_all-Everywhere (n ∷ ns) p v =
      untile_all-Everywhere ns _ (leave_grid-Everywhere n (find_node n p.panes) p refl v)

  set_layout_mode-Everywhere :
      (b : Bool) (p : Page) → Everywhere p → Everywhere (set_layout_mode b p)
  unfolding set_layout_mode
  set_layout_mode-Everywhere true p v =
      let start = record p { tile_mode = true } in
      let laid : Everywhere start = record { on_floating = v.on_floating; on_panes = v.on_panes } in
      let t = tile_all-Everywhere (nodes p.floating ++ nodes p.panes) start laid in
      apply_pane_grid-Everywhere _ (record { on_floating = t.on_floating; on_panes = t.on_panes })
  set_layout_mode-Everywhere false p v =
      let start = record p { tile_mode = false; pane_maxed = none } in
      let laid : Everywhere start = record { on_floating = v.on_floating; on_panes = v.on_panes } in
      let t = apply_pane_grid-Everywhere _ (untile_all-Everywhere (nodes p.panes) start laid) in
      record { on_floating = t.on_floating; on_panes = t.on_panes }

  pub change_window-Everywhere :
      (n : ℕ) (f : Win → Win) (p : Page)
      → ((w : Win) → Holds w → Holds (f w))
      → Everywhere p
      → Everywhere (change_window n f p)
  unfolding change_window
  change_window-Everywhere n f p k v = record {
    on_floating = All-change Holds n f p.floating k v.on_floating;
    on_panes = All-change Holds n f p.panes k v.on_panes;
  }

  toggle_maxed-Holds : (w : Win) → Holds w → Holds (toggle_maxed w)
  unfolding toggle_maxed
  toggle_maxed-Holds w h = elim (Bool-cases w.maxed) [ inl e ↦ simp e h | inr e ↦ simp e h ]

  toggle_floating_max-Everywhere :
      (n : ℕ) (o : Option Win) (p : Page) → Everywhere p → Everywhere (toggle_floating_max n o p)
  unfolding toggle_floating_max
  toggle_floating_max-Everywhere n none p v = v
  toggle_floating_max-Everywhere n (some w) p v = elim (Bool-cases (w.fullscreen || p.mobile)) [
    | inl e ↦ rw e v
    | inr e ↦ rw e (
        bring_to_front-Everywhere n _
          (change_window-Everywhere n toggle_maxed p toggle_maxed-Holds v))
  ]

  toggle_shell_window_max-Everywhere :
      (n : ℕ) (p : Page) → Everywhere p → Everywhere (toggle_shell_window_max n p)
  unfolding toggle_shell_window_max
  toggle_shell_window_max-Everywhere n p v = elim (Bool-cases (is_tiled n p)) [
    | inl e ↦
        let q : Everywhere (record p { pane_maxed = toggled n p.pane_maxed }) = record {
          on_floating = v.on_floating;
          on_panes = v.on_panes;
        } in
        rw e (set_active_pane-Everywhere (some n) _ (apply_pane_grid-Everywhere _ q))
    | inr e ↦ rw e (toggle_floating_max-Everywhere n (find_node n p.floating) p v)
  ]

  escape_key-Everywhere : (p : Page) → Everywhere p → Everywhere (escape_key p)
  unfolding escape_key
  escape_key-Everywhere p v = elim (Bool-cases (in_list p.pane_maxed p.panes)) [
    | inl e ↦
        let q : Everywhere (record p { pane_maxed = none }) = record {
          on_floating = v.on_floating;
          on_panes = v.on_panes;
        } in
        rw e (apply_pane_grid-Everywhere _ q)
    | inr e ↦ elim (Option-cases (first_maxed p.floating)) [
      | inl f ↦ rw (e, f) v
      | inr (n, f) ↦ rw (e, f) (toggle_shell_window_max-Everywhere n p v)
    ]
  ]

  minimised-Everywhere :
      (b : Bool) (n : ℕ) (p : Page)
      → Everywhere p
      → Everywhere (grid_if (is_tiled n p) (change_window n (λ w. record w { minimized = b }) p))
  minimised-Everywhere b n p v =
      let f = λ (w : Win). record w { minimized = b } in
      let q = change_window-Everywhere n f p (λ w h. h) v in
      elim (Bool-cases (is_tiled n p)) [
        | inl e ↦ rw e (apply_pane_grid-Everywhere _ q)
        | inr e ↦ rw e q
      ]

  minimize-Everywhere :
      (n : ℕ) (o : Option Win) (p : Page) → Everywhere p → Everywhere (minimize_found n o p)
  unfolding minimize_found
  minimize-Everywhere n none p v = v
  minimize-Everywhere n (some w) p v = elim (Bool-cases w.minimized) [
    | inl f ↦ rw f v
    | inr f ↦ rw f (minimised-Everywhere true n p v)
  ]

  pub restore-Everywhere :
      (n : ℕ) (o : Option Win) (p : Page) → Everywhere p → Everywhere (restore_found n o p)
  unfolding restore_found
  restore-Everywhere n none p v = v
  restore-Everywhere n (some w) p v = elim (Bool-cases w.minimized) [
    | inl f ↦ rw f (minimised-Everywhere false n p v)
    | inr f ↦ rw f v
  ]

  reopen_grid-Everywhere : (b : Bool) (p : Page) → Everywhere p → Everywhere (reopen_grid b p)
  unfolding reopen_grid
  reopen_grid-Everywhere true p v =
      apply_pane_grid-Everywhere _ (record { on_floating = v.on_floating; on_panes = v.on_panes })
  reopen_grid-Everywhere false p v = v

  pub show_all_windows-Everywhere : (p : Page) → Everywhere p → Everywhere (show_all_windows p)
  unfolding show_all_windows
  show_all_windows-Everywhere p v =
      let q = reopen_grid-Everywhere p.tile_mode p v in
      record {
        on_floating = All-set_hidden Holds false _ (λ w h. h) q.on_floating;
        on_panes = All-set_hidden Holds false _ (λ w h. h) q.on_panes;
      }

  hide_all_windows-Everywhere : (p : Page) → Everywhere p → Everywhere (hide_all_windows p)
  unfolding hide_all_windows
  hide_all_windows-Everywhere p v = record {
    on_floating = All-set_hidden Holds true p.floating (λ w h. h) v.on_floating;
    on_panes = v.on_panes;
  }

  leave_mobile-Holds : (s : Viewport) (w : Win) → Holds w → Holds (leave_mobile s w)
  unfolding leave_mobile position_window
  leave_mobile-Holds s w h = elim (Bool-cases w.maxed) [ inl e ↦ simp e h | inr e ↦ simp e h ]

  pub mobile_mode-Holds : (b : Bool) (w : Win) → Holds w → Holds (apply_window_viewport_mode b w)
  unfolding apply_window_viewport_mode
  mobile_mode-Holds true w h = h
  mobile_mode-Holds false w h = h

  viewport_changed-Everywhere :
      (b : Bool) (s : Viewport) (p : Page) → Everywhere p → Everywhere (viewport_changed b s p)
  unfolding viewport_changed
  viewport_changed-Everywhere true s p v = record {
    on_floating =
        All-map Holds (apply_window_viewport_mode true) p.floating (mobile_mode-Holds true)
          v.on_floating;
    on_panes = v.on_panes;
  }
  viewport_changed-Everywhere false s p v =
      let q : Everywhere (record p { mobile = false; floating = map (leave_mobile s) p.floating }) =
        record {
          on_floating =
              All-map Holds (leave_mobile s) p.floating (leave_mobile-Holds s) v.on_floating;
          on_panes = v.on_panes;
        } in
      elim (Bool-cases p.mobile) [
        | inl e ↦ rw e q
        | inr e ↦
            subst
              (λ b. Everywhere (
                if b
                then record p { mobile = false; floating = map (leave_mobile s) p.floating }
                else p))
              (sym e) v
      ]

  observe-Everywhere :
      (b : Bool) (ws : List Win) (p : Page) → Everywhere p → Everywhere (observe b ws p)
  unfolding observe
  observe-Everywhere false ws p v = v
  observe-Everywhere true [] p v = set_layout_mode-Everywhere false p v
  observe-Everywhere true (w ∷ ws) p v = apply_pane_grid-Everywhere p v

  -- Every event of the layout, on any page, keeps such a predicate.
  pub move-Everywhere : (m : Move) (p : Page) → Everywhere p → Everywhere (move m p)
  unfolding move untile_window minimize_shell_window restore_shell_window grid_changed
  move-Everywhere (raises n) p v = bring_to_front-Everywhere n p v
  move-Everywhere (tiles n) p v = tile_window-Everywhere n p v
  move-Everywhere (untiles n) p v = leave_grid-Everywhere n (find_node n p.panes) p refl v
  move-Everywhere (maximises n) p v = toggle_shell_window_max-Everywhere n p v
  move-Everywhere (minimises n) p v = minimize-Everywhere n (window_of n p) p v
  move-Everywhere (restores n) p v = restore-Everywhere n (window_of n p) p v
  move-Everywhere (switches b) p v = set_layout_mode-Everywhere b p v
  move-Everywhere escapes p v = escape_key-Everywhere p v
  move-Everywhere observes p v = observe-Everywhere p.tile_mode p.panes p v
  move-Everywhere hides p v = hide_all_windows-Everywhere p v
  move-Everywhere shows p v = show_all_windows-Everywhere p v
  move-Everywhere (resizes b s) p v = viewport_changed-Everywhere b s p v
