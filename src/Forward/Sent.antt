-- ===== src/Forward/Sent.antt =====
-- The requests for port forwards: internal/webui/assets/static/js/forward-modal.js.
use termcp.Base.{
  zero, suc, Bool, true, false, not, ◌&&◌, ◌||◌, Option, none, some, List, [], ◌∷◌, Text, ℤ, pos,
  negsuc, codes, or_text, trim, All, All-append, is_empty, ◌==◌, if◌then◌else◌, ◌≡◌, ◌≢◌, ◌⊎◌, refl,
  ap, subst, Bool-cases, inl, inr, arith,
}
use termcp.Forward.{
  Direction, dynamic, to_local, to_remote, Body, ForwardForm, ForwardField, Event, opens, types,
  chooses, creates, closes, is_answered, remote_host_input, remote_port_input, local_host_input,
  local_port_input, is_dynamic, is_zero, is_missing, body_of, choose_direction, open_forward_modal,
  create_forward, press_create, create_answered, typed, form_event, form_events,
}

-- A request names a session and a listen host, and a target unless its direction is dynamic.
pub record IsMeant (r : Text × Body) : Type 0 where
  pub of_session : r.0 ≢ []
  pub listens : r.1.local_host ≢ []
  pub target : (r.1.direction ≡ dynamic) ⊎ ((r.1.remote_host ≢ []) × (r.1.remote_port ≢ pos 0))

-- The session that the form was last opened for; an opening without one does not count.
abbrev pub bound_to : Text → List Event → Text
bound_to old [] = old
bound_to old (opens (c ∷ sid) cfg ∷ es) = bound_to (c ∷ sid) es
bound_to old (e ∷ es) = bound_to old es

-- The requests, the session of the form, and the target fields, which are on screen unless the
-- direction is dynamic.
pub record IsSound (sid : Text) (f : ForwardForm) : Type 0 where
  pub meant : All IsMeant f.sent
  pub bound : f.session_id ≡ sid
  pub targets : f.targets_shown ≡ not (is_dynamic f.direction_field)

has_target :
    (host : Text) (port : ℤ)
    → (is_empty host || is_zero port) ≡ false
    → (host ≢ []) × (port ≢ pos 0)
has_target [] port h = absurd (ground arith)
has_target (c ∷ host) (pos zero) h = absurd (ground arith)
has_target (c ∷ host) (pos (suc n)) h = ((λ e. cc), λ e. cc)
has_target (c ∷ host) (negsuc n) h = ((λ e. cc), λ e. cc)

-- What the check of the form lets through.
checked :
    (d : Direction) (host : Text) (port : ℤ)
    → (not (is_dynamic d) && (is_empty host || is_zero port)) ≡ false
    → (d ≡ dynamic) ⊎ ((host ≢ []) × (port ≢ pos 0))
checked dynamic host port h = inl refl
checked to_local host port h = inr (has_target host port h)
checked to_remote host port h = inr (has_target host port h)

or_text-filled : (s t : Text) → t ≢ [] → or_text s t ≢ []
or_text-filled [] t h = h
or_text-filled (c ∷ s) t h = λ e. cc

body_of-listens : (f : ForwardForm) → (body_of f).local_host ≢ []
unfolding body_of
body_of-listens f = or_text-filled (trim f.local_host_field) (codes "127.0.0.1") λ e. cc

opened-IsSound :
    (old sid cfg : Text) (f : ForwardForm)
    → IsSound old f
    → IsSound (bound_to old (opens sid cfg ∷ [])) (open_forward_modal sid cfg f)
unfolding open_forward_modal choose_direction
opened-IsSound old [] cfg f v = record { meant = v.meant; bound = v.bound; targets = v.targets }
opened-IsSound old (c ∷ sid) cfg f v = record { meant = v.meant; bound = refl; targets = refl }

send-IsSound :
    (sid : Text) (b : Body) (f : ForwardForm)
    → b.local_host ≢ []
    → is_missing b ≡ false
    → IsSound sid f
    → IsSound sid (create_forward b f)
unfolding create_forward
send-IsSound sid b f listens h v = elim (Bool-cases (is_empty f.session_id)) [
  | inl e ↦ rw e (record { meant = v.meant; bound = v.bound; targets = v.targets })
  | inr e ↦
      let named : f.session_id ≢ [] = λ n. (ground (arith, ap is_empty n)) in
      let meant : IsMeant (f.session_id, b) = record {
        of_session = named;
        listens = listens;
        target = checked b.direction b.remote_host b.remote_port h;
      } in
      rw e (record {
        meant = All-append IsMeant f.sent ((f.session_id, b) ∷ []) v.meant (meant, tt);
        bound = v.bound;
        targets = v.targets;
      })
]

created-IsSound :
    (sid : Text) (a : Bool) (f : ForwardForm)
    → is_missing (body_of f) ≡ a
    → IsSound sid f
    → IsSound sid (press_create f)
unfolding press_create
created-IsSound sid true f e v =
    rw e (record { meant = v.meant; bound = v.bound; targets = v.targets })
created-IsSound sid false f e v = rw e (
    send-IsSound sid (body_of f) (record f { error = none }) (body_of-listens f) e
      (record { meant = v.meant; bound = v.bound; targets = v.targets }))

answered-IsSound :
    (sid : Text) (o : Option Text) (f : ForwardForm)
    → IsSound sid f
    → IsSound sid (create_answered o f)
unfolding create_answered
answered-IsSound sid none f v = record { meant = v.meant; bound = v.bound; targets = v.targets }
answered-IsSound sid (some msg) f v = record {
  meant = v.meant;
  bound = v.bound;
  targets = v.targets;
}

typed-IsSound :
    (sid : Text) (i : ForwardField) (s : Text) (f : ForwardForm)
    → IsSound sid f
    → IsSound sid (typed i s f)
typed-IsSound sid remote_host_input s f v = record {
  meant = v.meant;
  bound = v.bound;
  targets = v.targets;
}
typed-IsSound sid remote_port_input s f v = record {
  meant = v.meant;
  bound = v.bound;
  targets = v.targets;
}
typed-IsSound sid local_host_input s f v = record {
  meant = v.meant;
  bound = v.bound;
  targets = v.targets;
}
typed-IsSound sid local_port_input s f v = record {
  meant = v.meant;
  bound = v.bound;
  targets = v.targets;
}

awaited-IsSound :
    (sid : Text) (b : Bool) (o : Option Text) (f : ForwardForm)
    → IsSound sid f
    → IsSound sid (if b then f else create_answered o f)
awaited-IsSound sid true o f v = v
awaited-IsSound sid false o f v = answered-IsSound sid o f v

event-IsSound :
    (sid : Text) (e : Event) (f : ForwardForm)
    → IsSound sid f
    → IsSound (bound_to sid (e ∷ [])) (form_event e f)
unfolding form_event choose_direction
event-IsSound old (opens sid cfg) f v = opened-IsSound old sid cfg f v
event-IsSound sid (types i s) f v = typed-IsSound sid i s f v
event-IsSound sid (chooses d) f v = record { meant = v.meant; bound = v.bound; targets = refl }
event-IsSound sid creates f v = created-IsSound sid (is_missing (body_of f)) f refl v
event-IsSound sid closes f v = record { meant = v.meant; bound = v.bound; targets = v.targets }
event-IsSound sid (is_answered o) f v = awaited-IsSound sid (f.waiting == 0) o f v

bound_to-cons :
    (old : Text) (e : Event) (es : List Event)
    → bound_to (bound_to old (e ∷ [])) es ≡ bound_to old (e ∷ es)
bound_to-cons old (opens [] cfg) es = refl
bound_to-cons old (opens (c ∷ sid) cfg) es = refl
bound_to-cons old (types i s) es = refl
bound_to-cons old (chooses d) es = refl
bound_to-cons old creates es = refl
bound_to-cons old closes es = refl
bound_to-cons old (is_answered o) es = refl

-- Through any sequence of openings, inputs, clicks and answers: every request sent names a session, a
-- listen host and, unless its direction is dynamic, a target host and a target port that is not zero;
-- the form is bound to the session that it was last opened for, an opening without a session not
-- counting; and the target fields are hidden exactly when the direction is dynamic.
pub form_events-IsSound :
    (sid : Text) (es : List Event) (f : ForwardForm)
    → IsSound sid f
    → IsSound (bound_to sid es) (form_events es f)
unfolding form_events
form_events-IsSound sid [] f v = v
form_events-IsSound sid (e ∷ es) f v =
    subst (λ x. IsSound x (form_events es (form_event e f))) (bound_to-cons sid e es)
      (form_events-IsSound (bound_to sid (e ∷ [])) es (form_event e f) (event-IsSound sid e f v))
