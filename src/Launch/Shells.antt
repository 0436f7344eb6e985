-- ===== src/Launch/Shells.antt =====
-- The tabs of a window that has been opened: the answer to the list of its shells, and
-- `addChannelClick` and `createChannel` of internal/webui/assets/static/js/terminal-view.js.
use termcp.Base.{
  ℕ, suc, Bool, true, false, not, ◌&&◌, ◌||◌, Option, none, some, List, [], ◌∷◌, ◌++◌, Text, any,
  keep_if, is_empty, is_some, or_text, lookup, trim, codes, if◌then◌else◌,
}
use termcp.Util.CommandLine.{split_command_line}
use termcp.Window.{Win}
use termcp.Window.Outbox.{Outbox}
use termcp.Window.Channels.{
  create_channel_tab, switch_channel_tab, show_channel_empty, lock_window_readonly,
}
use termcp.Window.Sync.{ShellInfo, shell_key}
use termcp.Layout.{change_window}
use termcp.Layout.Actions.{window_of}
use termcp.Launch.{Windows, ChannelRequest}
use termcp.Launch.Focus.{on_window}

unfoldable pub create_tabs : Bool → List ShellInfo → Win → Win
unfolding create_channel_tab
create_tabs history [] w = w
create_tabs history (s ∷ ss) w = create_tabs history ss (create_channel_tab (shell_key s) history w)

abbrev pub with_primary : Text → Win → Win
with_primary sid w = record w {
  primary_shell_id = elim w.primary_shell_id [ none ↦ some sid | some p ↦ some (or_text p sid) ];
}

-- The tab that was selected when the window was last closed.
abbrev pub restore_active : Option Text → Win → Win
restore_active none w = w
restore_active (some sid) w =
    if is_some (lookup sid w.channels) then switch_channel_tab sid w else w

abbrev pub lock_if : Bool → Outbox × Win → Outbox × Win
lock_if b ow = if b then lock_window_readonly ow else ow

unfoldable pub restore_tabs : Bool → Option Text → List ShellInfo → Outbox × Win → Outbox × Win
unfolding create_tabs switch_channel_tab show_channel_empty lock_window_readonly
restore_tabs read_only last [] (o, w) = lock_if read_only (o, show_channel_empty true w)
restore_tabs read_only last (s ∷ ss) (o, w) =
    lock_if read_only
      (o, restore_active last (create_tabs false (s ∷ ss) (with_primary (shell_key s) w)))

abbrev pub has_running : List ShellInfo → Bool
has_running = any λ s. s.running

-- The list of shells has come.
unfoldable pub restore_shells : Bool → Option Text → List ShellInfo → Outbox × Win → Outbox × Win
unfolding create_tabs restore_tabs
restore_shells read_only last shells (o, w) =
    if not (has_running shells) && (not (is_empty shells) && not read_only)
    then (o, create_tabs true shells w)
    else restore_tabs read_only last (keep_if (λ s. read_only || s.running) shells) (o, w)

-- The command line is split into the executable and its arguments.
unfoldable pub create_channel : Text → Text → Win → Option ChannelRequest
unfolding split_command_line trim
create_channel mode command w =
    if is_empty w.parent_sid || w.read_only
    then none
    else some (record {
      session = w.parent_sid;
      mode = or_text mode (codes "pty");
      command = elim (split_command_line (trim command)) [ [] ↦ none | arg ∷ args ↦ some arg ];
      args = elim (split_command_line (trim command)) [ [] ↦ [] | arg ∷ args ↦ args ];
    })

abbrev pub posted : ℕ → Option ChannelRequest → Windows → Windows
posted n none d = d
posted n (some r) d = record d { channel_requests = d.channel_requests ++ (n, r) ∷ [] }

unfoldable pub add_channel : ℕ → Text → Text → Windows → Windows
unfolding create_channel
add_channel n mode command d = elim (window_of n d.page) [
  | none ↦ d
  | some w ↦ posted n (create_channel mode command w) d
]

-- The list of shells of window `n`, or `none` when the request failed.
unfoldable pub shells_read : ℕ → Bool → Option (List ShellInfo) → Windows → Windows
unfolding restore_shells restore_tabs add_channel change_window
shells_read n read_only (some shells) d = elim (window_of n d.page) [
  | none ↦ d
  | some w ↦ on_window n (restore_shells read_only (lookup w.sid d.last_active) shells) (some w) d
]
shells_read n true none d = on_window n (restore_tabs true none []) (window_of n d.page) d
shells_read n false none d = add_channel n (codes "pty") [] d

-- The answer to a new channel: the id of its shell, or `none` when the request failed.
unfoldable pub channel_created : ℕ → Option Text → Windows → Windows
unfolding create_channel_tab change_window
channel_created n none d = record d { toasts = suc d.toasts }
channel_created n (some sid) d =
    on_window n (λ (o, w). (o, create_channel_tab sid false w)) (window_of n d.page) d
