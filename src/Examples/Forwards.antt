-- ===== src/Examples/Forwards.antt =====
-- The form for a port forward, and what the theorem says of it.
use termcp.Base.{true, false, none, some, List, [], ◌∷◌, codes, refl}
use termcp.Forward.{
  ForwardForm, Event, to_local, dynamic, opens, types, chooses, creates, is_answered,
  remote_host_input, remote_port_input, form_events,
}
use termcp.Forward.Sent.{IsSound, form_events-IsSound}

abbrev form : ForwardForm
form = record {
  session_id = [];
  ssh_cfg = [];
  visible = false;
  error = none;
  remote_host_field = [];
  remote_port_field = [];
  local_host_field = [];
  local_port_field = codes "0";
  direction_field = to_local;
  targets_shown = true;
  sent = [];
  waiting = 0;
  forward_reads = 0;
}

form-IsSound : IsSound [] form
form-IsSound = record { meant = tt; bound = refl; targets = refl }

abbrev day : List Event
day =
    creates
    ∷ opens (codes "s") []
    ∷ creates
    ∷ types remote_host_input (codes "db")
    ∷ types remote_port_input (codes "5432")
    ∷ creates
    ∷ is_answered none
    ∷ chooses dynamic
    ∷ creates
    ∷ is_answered (some (codes "in use"))
    ∷ []

form_events-IsSound_example : IsSound (codes "s") (form_events day form)
form_events-IsSound_example = form_events-IsSound [] day form form-IsSound
