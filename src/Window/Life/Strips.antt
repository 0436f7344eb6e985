-- ===== src/Window/Life/Strips.antt =====
-- The tab strip under sequences of events: internal/webui/assets/static/js/terminal-view.js and
-- sessions.js.
use termcp.Base.{
  suc, true, ◌||◌, Option, none, some, List, [], ◌∷◌, Text, Dict, ◌≡◌, refl, sym, ap, subst, ◌∙◌,
  inl, inr, arith, lookup, text_eq, any, keys, keys-insert_old, is_some, length, All, Distinct,
  Option-cases, Bool-cases, ◌≢◌,
}
use termcp.Window.{Win, Channel}
use termcp.Window.Outbox.{Outbox}
use termcp.Window.Channels.{
  lock_channel, map_channels, modify_channel, terminal_done, history_finished, lock_window_readonly,
}
use termcp.Window.Strip.{
  elements, ActiveOpen, IsStrip, switch_channel_tab-IsStrip, create_channel_tab-IsStrip,
}
use termcp.Window.Closing.{close_channel_tab-IsStrip}
use termcp.Window.Sync.Shown.{sync_window_tabs-IsStrip}
use termcp.Window.Life.{
  Event, creates, selects, closes, ends, loads, locks, syncs, step, run, IsNamed,
}

length-keys : (m : Dict Channel) → length m ≡ length (keys m)
length-keys [] = refl
length-keys ((k, ch) ∷ m) = ap suc (length-keys m)

lookup-keys : (s : Text) (m : Dict Channel) → is_some (lookup s m) ≡ any (λ k. text_eq k s) (keys m)
unfolding lookup
lookup-keys s [] = refl
lookup-keys s ((k, ch) ∷ m) = ground (arith, lookup-keys s m)

some_of : (o : Option Channel) → is_some o ≡ true → (ch : Channel) × (o ≡ some ch)
some_of none h = cc
some_of (some ch) h = (ch, refl)

ActiveOpen-keys :
    (a : Option Text) (m n : Dict Channel) → keys n ≡ keys m → ActiveOpen a m → ActiveOpen a n
ActiveOpen-keys none m [] e h = refl
ActiveOpen-keys none [] (p ∷ n) e h = cc
ActiveOpen-keys none (q ∷ m) (p ∷ n) e h = cc
ActiveOpen-keys (some s) m n e (ch, h) =
    some_of (lookup s n)
      (lookup-keys s n ∙ ap (any (λ k. text_eq k s)) e ∙ sym (lookup-keys s m) ∙ ap is_some h)

-- A change of the channels that keeps their ids keeps the strip.
with_channels-IsStrip :
    (w : Win) (m : Dict Channel)
    → IsStrip w
    → keys m ≡ keys w.channels
    → IsStrip (record w { channels = m })
with_channels-IsStrip w m v e = record {
  distinct = subst Distinct (sym e) v.distinct;
  named = subst (All (λ k. k ≢ [])) (sym e) v.named;
  tabs_shown = v.tabs_shown ∙ ap (elements w.active_channel_sid) (sym e);
  instances_shown = v.instances_shown ∙ ap (elements w.active_channel_sid) (sym e);
  counted = v.counted ∙ length-keys w.channels ∙ ap length (sym e) ∙ sym (length-keys m);
  active_open = ActiveOpen-keys w.active_channel_sid w.channels m e v.active_open;
}

keys-map : (f : Channel → Channel) (m : Dict Channel) → keys (map_channels f m) ≡ keys m
unfolding map_channels
keys-map f [] = refl
keys-map f ((k, ch) ∷ m) = cc (keys-map f m)

modify_channel-IsStrip :
    (sid : Text) (f : Channel → Channel) (w : Win) → IsStrip w → IsStrip (modify_channel sid f w)
unfolding modify_channel
modify_channel-IsStrip sid f w v = elim (Option-cases (lookup sid w.channels)) [
  | inl e ↦ rw (e, modify_channel) v
  | inr (ch, e) ↦
      rw (e, modify_channel)
        (with_channels-IsStrip w _ v (keys-insert_old sid (f ch) ch w.channels e))
]

history_finished-IsStrip :
    (sid : Text) (o : Outbox) (w : Win) → IsStrip w → IsStrip (history_finished sid (o, w)).1
unfolding history_finished
history_finished-IsStrip sid o w v = elim (Option-cases (lookup sid w.channels)) [
  | inl e ↦ rw (e, history_finished) v
  | inr (ch, e) ↦ elim (Bool-cases (w.read_only || ch.read_only_history)) [
    | inl over ↦ rw (e, history_finished) (simp over (modify_channel-IsStrip sid _ w v))
    | inr live ↦ rw (e, history_finished) (simp live (modify_channel-IsStrip sid _ w v))
  ]
]

step-IsStrip :
    (e : Event) (o : Outbox) (w : Win) → IsNamed e → IsStrip w → IsStrip (step e (o, w)).1
unfolding step
step-IsStrip (creates sid history) o w n v = create_channel_tab-IsStrip sid history w n v
step-IsStrip (selects sid) o w n v = switch_channel_tab-IsStrip sid w v
step-IsStrip (closes sid) o w n v = close_channel_tab-IsStrip sid o w v
step-IsStrip (ends sid) o w n v = unfold terminal_done in modify_channel-IsStrip sid _ w v
step-IsStrip (loads sid) o w n v = history_finished-IsStrip sid o w v
step-IsStrip locks o w n v =
    let u = record w {
      locked_readonly = true;
      read_only = true;
      input_closed = true;
      dead_badge_added = true;
    } in
    unfold lock_window_readonly in
    with_channels-IsStrip u _
      (record {
        distinct = v.distinct;
        named = v.named;
        tabs_shown = v.tabs_shown;
        instances_shown = v.instances_shown;
        counted = v.counted;
        active_open = v.active_open;
      })
      (keys-map lock_channel w.channels)
step-IsStrip (syncs shells) o w n v = sync_window_tabs-IsStrip shells o w n v

-- Through any sequence of events whose ids are not empty, the window's buttons and terminals are
-- those of its channels, in order, with at most one of them active; the count is exact; and a
-- channel is selected as long as there is one.
pub run-IsStrip :
    (es : List Event) (o : Outbox) (w : Win)
    → All IsNamed es
    → IsStrip w
    → IsStrip (run es (o, w)).1
unfolding run
run-IsStrip [] o w n v = v
run-IsStrip (e ∷ es) o w n v =
    let (o', u) = step e (o, w) in run-IsStrip es o' u n.1 (step-IsStrip e o w n.0 v)
