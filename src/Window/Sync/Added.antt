-- ===== src/Window/Sync/Added.antt =====
-- What `syncWindowTabs` of internal/webui/assets/static/js/sessions.js adds to a window.
use termcp.Base.{
  Bool, true, false, not, ◌||◌, ◌&&◌, List, [], ◌∷◌, Text, Option, ◌≡◌, ◌≢◌, refl, ap, ◌∙◌, inl,
  inr, arith, All, text_eq, text_eq_iff, any, lookup, is_some, if◌then◌else◌, Bool-cases,
}
use termcp.Window.{Win}
use termcp.Window.Channels.{is_active}
use termcp.Window.Strip.{IsStrip, create_channel_tab-IsStrip}
use termcp.Window.Frame.{has, SameShell, create_channel_tab-SameShell, has-create}
use termcp.Window.Sync.{
  ShellInfo, shell_key, add_missing, add_snapshot, add_exited, add_running_one, add_running, listed,
}

-- Every listed shell has an id.
abbrev pub AllNamed : List ShellInfo → Type 0
AllNamed = All (λ s. shell_key s ≢ [])

abbrev pub listed_exited : Text → List ShellInfo → Bool
listed_exited sid = any (λ s. not s.running && text_eq (shell_key s) sid)

abbrev pub listed_running : Text → List ShellInfo → Bool
listed_running sid = any (λ s. s.running && text_eq (shell_key s) sid)

-- What one addition does to a window.
pub record Adds (w u : Win) (b : Text → Bool) : Type 0 where
  pub same : SameShell w u
  pub shown : (j : Text) → has j u ≡ b j || has j w
  pub strip : IsStrip w → IsStrip u

add_missing-Adds :
    (sid : Text) (history : Bool) (w : Win)
    → sid ≢ []
    → Adds w (add_missing sid history w) (λ j. text_eq sid j)
unfolding add_missing
add_missing-Adds sid history w ne = elim (Bool-cases (is_some (lookup sid w.channels))) [
  | inl old ↦ rw old record {
    same = (refl, refl, refl);
    shown = λ j. ground (arith, text_eq_iff sid j);
    strip = λ v. v;
  }
  | inr new ↦ rw new record {
    same = create_channel_tab-SameShell sid history w;
    shown = λ j. has-create sid j history w;
    strip = create_channel_tab-IsStrip sid history w ne;
  }
]

Adds-none : (w : Win) (b : Text → Bool) → ((j : Text) → b j ≡ false) → Adds w w b
Adds-none w b h = record {
  same = (refl, refl, refl);
  shown = λ j. ground (arith, h j);
  strip = λ v. v;
}

Adds-then :
    (w u x : Win) (b c d : Text → Bool)
    → Adds w u b
    → Adds u x c
    → ((j : Text) → c j || b j ≡ d j)
    → Adds w x d
Adds-then w u x b c d f g h = record {
  same = (g.same.0 ∙ f.same.0, g.same.1 ∙ f.same.1, g.same.2 ∙ f.same.2);
  shown = λ j. ground (arith, g.shown j, f.shown j, h j);
  strip = λ v. g.strip (f.strip v);
}

pub add_snapshot-Adds :
    (shells : List ShellInfo) (w : Win)
    → AllNamed shells
    → Adds w (add_snapshot shells w) (λ j. listed j shells)
unfolding add_snapshot
add_snapshot-Adds [] w n = Adds-none w _ (λ j. refl)
add_snapshot-Adds (s ∷ shells) w n =
    Adds-then w _ _ _ _ _ (add_missing-Adds (shell_key s) false w n.0)
      (add_snapshot-Adds shells _ n.1) (λ j. ground arith)

exited_step :
    (s : ShellInfo) (w : Win)
    → shell_key s ≢ []
    → Adds w
        (if s.running then w else add_missing (shell_key s) true w)
        (λ j. not s.running && text_eq (shell_key s) j)
exited_step s w ne = elim (Bool-cases s.running) [
  | inl up ↦ rw up (Adds-none w _ (λ j. refl))
  | inr over ↦ rw over (add_missing-Adds (shell_key s) true w ne)
]

pub add_exited-Adds :
    (shells : List ShellInfo) (w : Win)
    → AllNamed shells
    → Adds w (add_exited shells w) (λ j. listed_exited j shells)
unfolding add_exited
add_exited-Adds [] w n = Adds-none w _ (λ j. refl)
add_exited-Adds (s ∷ shells) w n =
    Adds-then w _ _ _ _ _ (exited_step s w n.0) (add_exited-Adds shells _ n.1) (λ j. ground arith)

abbrev pub primary : Win → Text → Bool
primary w = is_active w.primary_shell_id

pub primary-key : (w : Win) (k j : Text) → text_eq k j ≡ true → primary w k ≡ primary w j
primary-key w k j e = ap (primary w) ((text_eq_iff k j).0 e)

running_step :
    (s : ShellInfo) (w : Win)
    → shell_key s ≢ []
    → Adds w (add_running_one s w) (λ j. s.running && text_eq (shell_key s) j && not (primary w j))
unfolding add_running_one
running_step s w ne = elim (Bool-cases s.running) [
  | inr over ↦ rw over (Adds-none w _ (λ j. refl))
  | inl up ↦ elim (Bool-cases (primary w (shell_key s))) [
    | inl root ↦ rw (up, root) (Adds-none w _ (λ j. ground (arith, primary-key w (shell_key s) j)))
    | inr other ↦
        rw (up, other)
          (let f = add_missing-Adds (shell_key s) false w ne in
            record {
              same = f.same;
              shown = λ j. ground (arith, f.shown j, primary-key w (shell_key s) j);
              strip = f.strip;
            })
  ]
]

pub primary-same : (w u : Win) (j : Text) → SameShell w u → primary u j ≡ primary w j
primary-same w u j same = ap (λ (p : Option Text). is_active p j) same.0

pub add_running-Adds :
    (shells : List ShellInfo) (w : Win)
    → AllNamed shells
    → Adds w (add_running shells w) (λ j. listed_running j shells && not (primary w j))
unfolding add_running
add_running-Adds [] w n = Adds-none w _ (λ j. refl)
add_running-Adds (s ∷ shells) w n =
    let u = add_running_one s w in
    let f = running_step s w n.0 in
    Adds-then w u _ _ _ _ f (add_running-Adds shells u n.1)
      (λ j. ground (arith, primary-same w u j f.same))
