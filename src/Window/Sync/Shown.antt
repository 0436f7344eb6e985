-- ===== src/Window/Sync/Shown.antt =====
-- The tabs and the strip after `syncWindowTabs` of internal/webui/assets/static/js/sessions.js.
use termcp.Base.{
  Bool, true, false, not, ◌||◌, ◌&&◌, List, [], ◌∷◌, Text, ◌≡◌, refl, ap, ◌∙◌, inl, inr, arith,
  text_eq, text_eq_iff, any, lookup, keys, is_some, Bool-cases, Dict,
}
use termcp.Window.{Win, Channel}
use termcp.Window.Outbox.{Outbox}
use termcp.Window.Channels.{is_active}
use termcp.Window.Strip.{IsStrip}
use termcp.Window.Closing.{close_channel_tab-IsStrip}
use termcp.Window.Frame.{has, SameShell, close_channel_tab-SameShell, has-close}
use termcp.Window.Sync.{
  ShellInfo, add_exited, add_running, listed, prune_one, prune, sync_window_tabs,
}
use termcp.Window.Sync.Added.{
  AllNamed, listed_exited, listed_running, add_snapshot-Adds, add_exited-Adds, primary, primary-key,
  primary-same, add_running-Adds,
}

-- What the pruning does to a window: `b` holds of the ids that it closes.
record Drops (w u : Win) (b : Text → Bool) : Type 0 where
  same : SameShell w u
  shown : (j : Text) → has j u ≡ has j w && not (b j)
  strip : IsStrip w → IsStrip u

Drops-none : (w : Win) (b : Text → Bool) → ((j : Text) → b j ≡ false) → Drops w w b
Drops-none w b h = record {
  same = (refl, refl, refl);
  shown = λ j. ground (arith, h j);
  strip = λ v. v;
}

listed-key :
    (shells : List ShellInfo) (k j : Text) → text_eq k j ≡ true → listed k shells ≡ listed j shells
listed-key shells k j e = ap (λ (i : Text). listed i shells) ((text_eq_iff k j).0 e)

prune_step :
    (shells : List ShellInfo) (sid : Text) (o : Outbox) (w : Win)
    → Drops w
        (prune_one shells sid (o, w)).1
        (λ j. text_eq sid j && not (primary w j) && not (listed j shells))
unfolding prune_one
prune_step shells sid o w = elim (Bool-cases (primary w sid)) [
  | inl root ↦ rw root (Drops-none w _ (λ j. ground (arith, primary-key w sid j)))
  | inr other ↦ elim (Bool-cases (listed sid shells)) [
    | inl there ↦ rw (other, there) (Drops-none w _ (λ j. ground (arith, listed-key shells sid j)))
    | inr gone ↦
        rw (other, gone)
          record {
            same = close_channel_tab-SameShell sid o w;
            shown = λ j. ground (
              arith,
              has-close sid j o w,
              text_eq_iff sid j,
              text_eq_iff j sid,
              listed-key shells sid j,
              primary-key w sid j,
            );
            strip = close_channel_tab-IsStrip sid o w;
          }
  ]
]

abbrev contains : Text → List Text → Bool
contains j = any (λ sid. text_eq sid j)

prune-Drops :
    (shells : List ShellInfo) (sids : List Text) (o : Outbox) (w : Win)
    → Drops w
        (prune shells sids (o, w)).1
        (λ j. contains j sids && not (primary w j) && not (listed j shells))
unfolding prune
prune-Drops shells [] o w = Drops-none w _ (λ j. refl)
prune-Drops shells (sid ∷ sids) o w =
    let (o', u) = prune_one shells sid (o, w) in
    let f = prune_step shells sid o w in
    let g = prune-Drops shells sids o' u in
    record {
      same = (g.same.0 ∙ f.same.0, g.same.1 ∙ f.same.1, g.same.2 ∙ f.same.2);
      shown = λ j. ground (arith, f.shown j, g.shown j, primary-same w u j f.same);
      strip = λ v. g.strip (f.strip v);
    }

contains-keys :
    (j : Text) (m : Dict Channel) → is_some (lookup j m) ≡ true → contains j (keys m) ≡ true
unfolding lookup
contains-keys j [] h = h
contains-keys j ((k, c) ∷ m) h = ground (arith, contains-keys j m)

listed-parts :
    (j : Text) (shells : List ShellInfo)
    → listed j shells ≡ listed_exited j shells || listed_running j shells
listed-parts j [] = refl
listed-parts j (s ∷ shells) = ground (arith, listed-parts j shells)

-- The tabs of a live window after a synchronisation with the server's list: every listed shell
-- that has exited, every listed running shell but the primary one, and, of the tabs that the window
-- had before, those of listed shells and of the primary shell. The list names every shell.
pub sync_window_tabs-live :
    (shells : List ShellInfo) (o : Outbox) (w : Win) (j : Text)
    → AllNamed shells
    → w.read_only ≡ false
    → has j (sync_window_tabs shells (o, w)).1
      ≡ listed_exited j shells
        || (listed_running j shells && not (is_active w.primary_shell_id j))
        || (has j w && (is_active w.primary_shell_id j || listed j shells))
unfolding sync_window_tabs
sync_window_tabs-live shells o w j n live =
    let x = add_exited shells w in
    let u = add_running shells x in
    let f = add_exited-Adds shells w n in
    let g = add_running-Adds shells x n in
    let d = prune-Drops shells (keys u.channels) o u in
    rw live (
      ground (
        arith,
        f.shown j,
        g.shown j,
        d.shown j,
        primary-same w x j f.same,
        primary-same x u j g.same,
        contains-keys j u.channels,
        listed-parts j shells,
      ))

-- In the view of a dead session every listed shell gets a tab, no tab goes, and nothing is sent.
pub sync_window_tabs-read_only :
    (shells : List ShellInfo) (o : Outbox) (w : Win) (j : Text)
    → AllNamed shells
    → w.read_only ≡ true
    → (has j (sync_window_tabs shells (o, w)).1 ≡ listed j shells || has j w)
      × ((sync_window_tabs shells (o, w)).0 ≡ o)
unfolding sync_window_tabs
sync_window_tabs-read_only shells o w j n dead =
    simp dead ((add_snapshot-Adds shells w n).shown j, refl)

-- A synchronisation keeps the tab strip consistent.
pub sync_window_tabs-IsStrip :
    (shells : List ShellInfo) (o : Outbox) (w : Win)
    → AllNamed shells
    → IsStrip w
    → IsStrip (sync_window_tabs shells (o, w)).1
unfolding sync_window_tabs
sync_window_tabs-IsStrip shells o w n v = elim (Bool-cases w.read_only) [
  | inl dead ↦ simp dead ((add_snapshot-Adds shells w n).strip v)
  | inr live ↦
      let x = add_exited shells w in
      let u = add_running shells x in
      simp live (
        (prune-Drops shells (keys u.channels) o u).strip
          ((add_running-Adds shells x n).strip ((add_exited-Adds shells w n).strip v)))
]
