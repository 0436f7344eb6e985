-- ===== src/Window/Sync.antt =====
-- `syncWindowTabs` of internal/webui/assets/static/js/sessions.js: the tabs of a window follow the
-- shells that the server lists.
pub mod Added
pub mod Shown
use termcp.Base.{
  ℕ, Bool, true, false, not, List, [], ◌∷◌, Text, text_eq, any, lookup, keys, is_some, or_text,
  if◌then◌else◌,
}
use termcp.Window.{Win}
use termcp.Window.Outbox.{Outbox}
use termcp.Window.Channels.{is_active, create_channel_tab, close_channel_tab}

-- One entry of the server's list; `running` is `status === 'running'`.
pub record ShellInfo : Type 0 where
  pub shell_id : Text
  pub id : Text
  pub running : Bool

-- `s.shell_id || s.id`.
abbrev pub shell_key : ShellInfo → Text
shell_key s = or_text s.shell_id s.id

-- `if (!existing[sid]) createChannelTab(win, sid, null, history)`.
unfoldable pub add_missing : Text → Bool → Win → Win
add_missing sid history w =
    if is_some (lookup sid w.channels) then w else create_channel_tab sid history w

unfoldable pub add_snapshot : List ShellInfo → Win → Win
add_snapshot [] w = w
add_snapshot (s ∷ shells) w = add_snapshot shells (add_missing (shell_key s) false w)

unfoldable pub add_exited : List ShellInfo → Win → Win
add_exited [] w = w
add_exited (s ∷ shells) w =
    add_exited shells (if s.running then w else add_missing (shell_key s) true w)

unfoldable pub add_running_one : ShellInfo → Win → Win
add_running_one s w =
    if s.running
    then (if is_active w.primary_shell_id (shell_key s)
        then w
        else add_missing (shell_key s) false w)
    else w

unfoldable pub add_running : List ShellInfo → Win → Win
add_running [] w = w
add_running (s ∷ shells) w = add_running shells (add_running_one s w)

abbrev pub listed : Text → List ShellInfo → Bool
listed sid = any (λ s. text_eq (shell_key s) sid)

unfoldable pub prune_one : List ShellInfo → Text → Outbox × Win → Outbox × Win
prune_one shells sid (o, w) =
    if is_active w.primary_shell_id sid
    then (o, w)
    else if listed sid shells
    then (o, w)
    else close_channel_tab sid (o, w)

unfoldable pub prune : List ShellInfo → List Text → Outbox × Win → Outbox × Win
prune shells [] ow = ow
prune shells (sid ∷ sids) ow = prune shells sids (prune_one shells sid ow)

unfoldable pub sync_window_tabs : List ShellInfo → Outbox × Win → Outbox × Win
unfolding add_missing add_snapshot add_exited add_running_one add_running prune_one prune
sync_window_tabs shells (o, w) =
    if w.read_only
    then (o, add_snapshot shells w)
    else let added = add_running shells (add_exited shells w) in
      prune shells (keys added.channels) (o, added)
