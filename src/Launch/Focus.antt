-- ===== src/Launch/Focus.antt =====
-- `focusSessionWindow` for a session that has a window,
-- internal/webui/assets/static/js/shell-windows.js.
use termcp.Base.{ℕ, Bool, not, ◌&&◌, Option, none, some, is_some, if◌then◌else◌}
use termcp.Window.{Win}
use termcp.Window.Outbox.{Outbox}
use termcp.Window.Channels.{lock_window_readonly}
use termcp.Layout.{Page, is_node, is_tiled, change_window, apply_pane_grid, bring_to_front}
use termcp.Layout.Actions.{restore_shell_window, expand_shell_window, window_of}
use termcp.Launch.{Windows, show_all_if_hidden}

-- The maximised pane gives way to another one that is focused.
unfoldable pub unmax_other : ℕ → Page → Page
unfolding apply_pane_grid
unmax_other n p =
    if is_tiled n p && (is_some p.pane_maxed && not (is_node p.pane_maxed n))
    then apply_pane_grid (record p { pane_maxed = none })
    else p

unfoldable pub raised : ℕ → Page → Page
unfolding restore_shell_window change_window expand_shell_window unmax_other bring_to_front
raised n p =
    bring_to_front n
      (unmax_other n (change_window n expand_shell_window (restore_shell_window n p)))

-- An operation on the outbox and one window of the page.
abbrev pub on_window : ℕ → (Outbox × Win → Outbox × Win) → Option Win → Windows → Windows
on_window n f none d = d
on_window n f (some w) d =
    let (o, u) = f (d.outbox, w) in record d { outbox = o; page = change_window n (λ _. u) d.page }

unfoldable pub lock_window : ℕ → Windows → Windows
unfolding lock_window_readonly change_window
lock_window n d = on_window n lock_window_readonly (window_of n d.page) d

unfoldable pub focus_found : ℕ → Bool → Windows → Windows
unfolding raised lock_window
focus_found n read_only d =
    let front = record d { page = raised n d.page } in
    let locked = if read_only then lock_window n front else front in
    record locked { page = show_all_if_hidden locked.page }
