-- ===== src/Window/Life/Every.antt =====
-- What holds of every channel of a window: internal/webui/assets/static/js/terminal-view.js and
-- sessions.js.
use termcp.Base.{
  ℕ, Bool, some, [], ◌∷◌, Text, Dict, ◌≡◌, sym, subst, inl, inr, lookup, insert, delete,
  Option-cases, Bool-cases, text_eq,
}
use termcp.Window.{Win, Channel}
use termcp.Window.Outbox.{Outbox}
use termcp.Window.Channels.{
  open_tab, map_channels, modify_channel, new_channel, create_channel_tab, create_cases,
  close_channel_tab,
}
use termcp.Window.Frame.{has, channels-switch, channels-close}

-- A property of every channel of a map.
abbrev pub Every : (Channel → Type 0) → Dict Channel → Type 0
Every P [] = Unit
Every P ((k, ch) ∷ m) = P ch × Every P m

module _ (P : Channel → Type 0) where
  pub Every-insert :
      (k : Text) (ch : Channel) (m : Dict Channel) → P ch → Every P m → Every P (insert k ch m)
  unfolding insert
  Every-insert k ch [] p h = (p, tt)
  Every-insert k ch ((j, d) ∷ m) p h = elim (Bool-cases (text_eq j k)) [
    | inl e ↦ rw e (p, h.1)
    | inr e ↦ rw e (h.0, Every-insert k ch m p h.1)
  ]

  pub Every-delete : (k : Text) (m : Dict Channel) → Every P m → Every P (delete k m)
  unfolding delete
  Every-delete k [] h = tt
  Every-delete k ((j, d) ∷ m) h = elim (Bool-cases (text_eq j k)) [
    | inl e ↦ rw e (Every-delete k m h.1)
    | inr e ↦ rw e (h.0, Every-delete k m h.1)
  ]

  pub Every-lookup :
      (k : Text) (ch : Channel) (m : Dict Channel) → Every P m → lookup k m ≡ some ch → P ch
  unfolding lookup
  Every-lookup k ch [] h e = cc
  Every-lookup k ch ((j, d) ∷ m) h e = elim (Bool-cases (text_eq j k)) [
    | inl same ↦ subst P (cc (rw same at e)) h.0
    | inr other ↦ Every-lookup k ch m h.1 (rw other at e)
  ]

pub Every-map :
    (P Q : Channel → Type 0) (f : Channel → Channel) (m : Dict Channel)
    → ((ch : Channel) → P ch → Q (f ch))
    → Every P m
    → Every Q (map_channels f m)
unfolding map_channels
Every-map P Q f [] keep h = tt
Every-map P Q f ((j, d) ∷ m) keep h = (keep d h.0, Every-map P Q f m keep h.1)

pub Every-create :
    (P : Channel → Type 0) (sid : Text) (history : Bool) (w : Win)
    → ((index : ℕ) → P (new_channel history index))
    → Every P w.channels
    → Every P (create_channel_tab sid history w).channels
Every-create P sid history w fresh h =
    create_cases (λ u. Every P u.channels) sid history w
      (λ _ _. subst (Every P) (sym (channels-switch sid w)) h)
      (λ _. unfold open_tab in Every-insert P sid _ w.channels (fresh _) h)

pub Every-close :
    (P : Channel → Type 0) (sid : Text) (o : Outbox) (w : Win)
    → Every P w.channels
    → Every P (close_channel_tab sid (o, w)).1.channels
Every-close P sid o w h = rw (channels-close sid o w) (elim (Bool-cases (has sid w)) [
  | inl e ↦ rw e (Every-delete P sid w.channels h)
  | inr e ↦ rw e h
])

pub Every-modify :
    (P : Channel → Type 0) (sid : Text) (f : Channel → Channel) (w : Win)
    → ((ch : Channel) → lookup sid w.channels ≡ some ch → P ch → P (f ch))
    → Every P w.channels
    → Every P (modify_channel sid f w).channels
unfolding modify_channel
Every-modify P sid f w keep h = elim (Option-cases (lookup sid w.channels)) [
  | inl e ↦ rw (e, modify_channel) h
  | inr (ch, e) ↦
      rw (e, modify_channel)
        (Every-insert P sid (f ch) w.channels (keep ch e (Every-lookup P sid ch w.channels h e)) h)
]
