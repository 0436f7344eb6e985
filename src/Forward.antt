-- ===== src/Forward.antt =====
-- The form that opens a port forward: internal/webui/assets/static/js/forward-modal.js. The two ports
-- are number fields, so `parseInt` meets decimal digits alone.
pub mod Sent
use termcp.Base.{
  ℕ, suc, ◌-◌, Bool, true, false, not, ◌&&◌, ◌||◌, Option, none, some, List, [], ◌∷◌, ◌++◌, Text,
  codes, text_eq, trim, or_text, is_empty, is_some, strip_prefix, ℤ, pos, negsuc, ◌==◌,
  if◌then◌else◌,
}
use termcp.ConnForm.Decimal.{parse_int}

-- The options of the direction.
pub data Direction : Type 0 where
  to_local to_remote dynamic : Direction

pub record Body : Type 0 where
  pub direction : Direction
  pub remote_host : Text
  pub remote_port : ℤ
  pub local_host : Text
  pub local_port : ℤ

pub record ForwardForm : Type 0 where
  -- `_fwdSessionId` and `_fwdSshCfg`
  pub session_id : Text
  pub ssh_cfg : Text
  pub visible : Bool
  pub error : Option Text
  pub remote_host_field : Text
  pub remote_port_field : Text
  pub local_host_field : Text
  pub local_port_field : Text
  pub direction_field : Direction
  -- the target fields and the listen host are on screen
  pub targets_shown : Bool
  -- the requests, oldest first, with their sessions; those that wait; the reads of the list
  pub sent : List (Text × Body)
  pub waiting : ℕ
  pub forward_reads : ℕ

abbrev pub is_dynamic : Direction → Bool
is_dynamic dynamic = true
is_dynamic d = false

-- `onchange` of the direction.
unfoldable pub choose_direction : Direction → ForwardForm → ForwardForm
choose_direction d f = record f { direction_field = d; targets_shown = not (is_dynamic d) }

unfoldable pub open_forward_modal : Text → Text → ForwardForm → ForwardForm
unfolding choose_direction
open_forward_modal sid cfg f =
    if is_empty sid
    then record f { visible = true; error = some (codes "modal.forward.err.noSession") }
    else choose_direction to_local (record f {
      session_id = sid;
      ssh_cfg = or_text cfg (codes "internal");
      visible = true;
      error = none;
      remote_host_field = [];
      remote_port_field = [];
      local_host_field = codes "127.0.0.1";
      local_port_field = codes "0";
    })

-- `parseInt(s) || 0`.
unfoldable pub port_or_zero : Text → ℤ
unfolding parse_int
port_or_zero s = elim (parse_int s) [ none ↦ pos 0 | some n ↦ n ]

abbrev pub is_zero : ℤ → Bool
is_zero (pos n) = n == 0
is_zero (negsuc n) = false

abbrev pub is_missing : Body → Bool
is_missing b = not (is_dynamic b.direction) && (is_empty b.remote_host || is_zero b.remote_port)

unfoldable pub body_of : ForwardForm → Body
unfolding port_or_zero
body_of f = record {
  direction = f.direction_field;
  remote_host = trim f.remote_host_field;
  remote_port = port_or_zero f.remote_port_field;
  local_host = or_text (trim f.local_host_field) (codes "127.0.0.1");
  local_port = port_or_zero f.local_port_field;
}

-- Without a session the promise fails at once, and the form shows it.
unfoldable pub create_forward : Body → ForwardForm → ForwardForm
create_forward b f =
    if is_empty f.session_id
    then record f { error = some (codes "modal.forward.err.noSession") }
    else record f { sent = f.sent ++ (f.session_id, b) ∷ []; waiting = suc f.waiting }

unfoldable pub press_create : ForwardForm → ForwardForm
unfolding create_forward body_of
press_create f =
    if is_missing (body_of f)
    then record f { error = some (codes "modal.forward.err.required") }
    else create_forward (body_of f) (record f { error = none })

-- The answer of the server, or its error.
unfoldable pub create_answered : Option Text → ForwardForm → ForwardForm
create_answered none f = record f {
  waiting = f.waiting - 1;
  visible = false;
  forward_reads = suc f.forward_reads;
}
create_answered (some msg) f = record f { waiting = f.waiting - 1; error = some msg }

pub data ForwardField : Type 0 where
  remote_host_input remote_port_input local_host_input local_port_input : ForwardField

abbrev pub typed : ForwardField → Text → ForwardForm → ForwardForm
typed remote_host_input s f = record f { remote_host_field = s }
typed remote_port_input s f = record f { remote_port_field = s }
typed local_host_input s f = record f { local_host_field = s }
typed local_port_input s f = record f { local_port_field = s }

pub data Event : Type 0 where
  opens : Text → Text → Event
  types : ForwardField → Text → Event
  chooses : Direction → Event
  creates closes : Event
  is_answered : Option Text → Event

unfoldable pub form_event : Event → ForwardForm → ForwardForm
unfolding open_forward_modal choose_direction press_create create_answered
form_event (opens sid cfg) f = open_forward_modal sid cfg f
form_event (types i s) f = typed i s f
form_event (chooses d) f = choose_direction d f
form_event creates f = press_create f
form_event closes f = record f { visible = false }
form_event (is_answered o) f = if f.waiting == 0 then f else create_answered o f

unfoldable pub form_events : List Event → ForwardForm → ForwardForm
unfolding form_event
form_events [] f = f
form_events (e ∷ es) f = form_events es (form_event e f)
