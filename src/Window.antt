-- ===== src/Window.antt =====
-- A shell window of the web interface: the fields that terminal-view.js, sessions.js,
-- shell-windows.js and ui-socket.js (internal/webui/assets/static/js) keep on its DOM node, with
-- the class flags and the inline style of that node. The proofs are in the modules below.
pub mod Outbox
pub mod Channels
pub mod Strip
pub mod Dropped
pub mod Closing
pub mod Frame
pub mod Sync
pub mod Life
use termcp.Base.{ℕ, Bool, Option, List, Text, Dict, ℤ}

-- A length of the inline style; `unset` is the empty string.
pub data Css : Type 0 where
  unset auto_size : Css
  px : ℤ → Css
  -- `calc(100vw - 16px)` and `calc(100dvh - 16px)`.
  inset_viewport : Css

pub record Rect : Type 0 where
  pub left : Css
  pub top : Css
  pub width : Css
  pub height : Css

-- One shell channel. `marker_lines` counts the end markers that were written to its terminal.
pub record Channel : Type 0 where
  pub read_only_history : Bool
  pub stream_done : Bool
  pub ended_mark_printed : Bool
  pub history_loaded : Bool
  pub url_index : ℕ
  pub marker_lines : ℕ

-- A tab button, or the terminal pane behind it, with its `active` class.
pub record TabElement : Type 0 where
  pub chsid : Text
  pub active : Bool

pub record Win : Type 0 where
  -- identity of the DOM node
  pub node : ℕ
  pub sid : Text
  pub parent_sid : Text
  pub placeholder : Bool
  pub conn_name : Text
  pub pending_conn_name : Text
  -- whether `_connectAbort` can still stop the request that the window waits for
  pub connect_abort : Bool
  -- channels; `channels_made` is whether the `_channels` object exists
  pub channels_made : Bool
  pub channels : Dict Channel
  pub active_channel_sid : Option Text
  pub channel_count : ℕ
  pub channel_seq : ℕ
  pub primary_shell_id : Option Text
  pub tabs : List TabElement
  pub instances : List TabElement
  pub empty_shown : Bool
  pub body_hidden : Bool
  -- input and life cycle
  pub stream_done : Bool
  pub shell_user_input_ready : Bool
  pub read_only : Bool
  pub locked_readonly : Bool
  pub input_closed : Bool
  pub dead_badge_added : Bool
  pub approval_mode : Bool
  pub approval_need : ℕ
  pub notified : Bool
  -- class flags and geometry
  pub minimized : Bool
  pub collapsed : Bool
  pub hidden : Bool
  pub fullscreen : Bool
  pub maxed : Bool
  pub tiled_class : Bool
  pub pane_active_class : Bool
  pub pane_maxed_class : Bool
  pub rect : Rect
  pub z_index : Option ℕ
  pub float_rect : Option Rect
  pub max_saved_rect : Option Rect
  pub saved_height : Css
