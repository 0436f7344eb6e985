-- ===== src/Window/Frame.antt =====
-- What the channel operations leave alone, and which channels a window has after each:
-- internal/webui/assets/static/js/terminal-view.js.
use termcp.Base.{
  ◌+◌, ◌∷◌, Bool, ◌||◌, ◌&&◌, Option, none, some, Text, ◌≡◌, refl, ap, ◌∙◌, inl, inr, arith,
  text_eq, text_eq_iff, lookup, lookup-insert, delete, lookup-delete, is_some, Option-cases,
  Bool-cases, differs, if◌then◌else◌, [],
}
use termcp.Window.{Win}
use termcp.Window.Outbox.{Outbox}
use termcp.Window.Channels.{
  is_active, select, switch_channel_tab, switch_cases, open_tab, create_channel_tab, create_cases,
  channel_neighbor, settle, switch_or_settle, drop_channel, after_close, close_channel_tab,
  new_channel,
}

-- The window shows a channel for the id.
abbrev pub has : Text → Win → Bool
has sid w = is_some (lookup sid w.channels)

-- The fields that no tab operation changes.
abbrev pub SameShell : Win → Win → Type 0
SameShell w u =
    (u.primary_shell_id ≡ w.primary_shell_id)
    × (u.read_only ≡ w.read_only)
    × (u.parent_sid ≡ w.parent_sid)

pub switch_channel_tab-SameShell : (sid : Text) (w : Win) → SameShell w (switch_channel_tab sid w)
switch_channel_tab-SameShell sid w =
    switch_cases (SameShell w) sid w (refl, refl, refl) λ _ _. unfold select in (refl, refl, refl)

pub channels-switch : (sid : Text) (w : Win) → (switch_channel_tab sid w).channels ≡ w.channels
channels-switch sid w =
    switch_cases (λ u. u.channels ≡ w.channels) sid w refl λ _ _. unfold select in refl

pub create_channel_tab-SameShell :
    (sid : Text) (history : Bool) (w : Win) → SameShell w (create_channel_tab sid history w)
create_channel_tab-SameShell sid history w =
    create_cases (SameShell w) sid history w (λ _ _. switch_channel_tab-SameShell sid w)
      λ _. unfold open_tab in (refl, refl, refl)

pub has-create :
    (sid j : Text) (history : Bool) (w : Win)
    → has j (create_channel_tab sid history w) ≡ text_eq sid j || has j w
has-create sid j history w =
    create_cases (λ u. has j u ≡ text_eq sid j || has j w) sid history w
      (λ ch e. rw (channels-switch sid w) (ground (arith, text_eq_iff sid j)))
      (λ e.
        unfold open_tab in
        ground (arith, lookup-insert sid j (new_channel history (w.channel_seq + 1)) w.channels))

settle-SameShell : (w : Win) → SameShell w (settle w)
unfolding settle
settle-SameShell w = ground arith

channels-settle : (w : Win) → (settle w).channels ≡ w.channels
unfolding settle
channels-settle w = ground arith

switch_or_settle-keeps :
    (n : Option Text) (w : Win)
    → SameShell w (switch_or_settle n w) × ((switch_or_settle n w).channels ≡ w.channels)
unfolding switch_or_settle
switch_or_settle-keeps none w = (settle-SameShell w, channels-settle w)
switch_or_settle-keeps (some []) w = (settle-SameShell w, channels-settle w)
switch_or_settle-keeps (some (c ∷ n)) w = elim (Option-cases (lookup (c ∷ n) w.channels)) [
  | inl e ↦ rw (e, switch_or_settle) (settle-SameShell w, channels-settle w)
  | inr (ch, e) ↦
      rw (e, switch_or_settle) (switch_channel_tab-SameShell (c ∷ n) w, channels-switch (c ∷ n) w)
]

after_close-keeps :
    (sid : Text) (w : Win)
    → SameShell w (after_close sid w) × ((after_close sid w).channels ≡ w.channels)
unfolding after_close
after_close-keeps sid w = elim (Bool-cases (is_active w.active_channel_sid sid)) [
  | inl on ↦ rw on (switch_or_settle-keeps (channel_neighbor sid w) w)
  | inr off ↦ rw off ((refl, refl, refl), refl)
]

pub close_channel_tab-SameShell :
    (sid : Text) (o : Outbox) (w : Win) → SameShell w (close_channel_tab sid (o, w)).1
unfolding close_channel_tab
close_channel_tab-SameShell sid o w = elim (Option-cases (lookup sid w.channels)) [
  | inl e ↦ rw (e, close_channel_tab) (refl, refl, refl)
  | inr (ch, e) ↦
      rw (e, close_channel_tab)
        (unfold drop_channel in (after_close-keeps sid (drop_channel sid w)).0)
]

-- The channels after a close, when the window had the channel.
pub channels-close :
    (sid : Text) (o : Outbox) (w : Win)
    → (close_channel_tab sid (o, w)).1.channels
      ≡ (if has sid w then delete sid w.channels else w.channels)
unfolding close_channel_tab
channels-close sid o w = elim (Option-cases (lookup sid w.channels)) [
  | inl e ↦ rw (e, close_channel_tab)
  | inr (ch, e) ↦
      rw (e, close_channel_tab)
        (unfold drop_channel in (after_close-keeps sid (drop_channel sid w)).1)
]

pub has-close :
    (sid j : Text) (o : Outbox) (w : Win)
    → has j (close_channel_tab sid (o, w)).1 ≡ differs sid j && has j w
unfolding close_channel_tab
has-close sid j o w = elim (Option-cases (lookup sid w.channels)) [
  | inl e ↦ rw (e, close_channel_tab) (ground (arith, text_eq_iff j sid))
  | inr (ch, e) ↦
      rw (e, close_channel_tab)
        (ap (λ m. is_some (lookup j m)) (after_close-keeps sid (drop_channel sid w)).1
          ∙ unfold drop_channel in
            ground (arith, lookup-delete sid j w.channels, text_eq_iff j sid, text_eq_iff sid j))
]
