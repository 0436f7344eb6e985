-- ===== src/Window/Dropped.antt =====
-- A window whose channel has been dropped, before a new tab is selected: the parts of
-- `closeChannelTab` of internal/webui/assets/static/js/terminal-view.js.
use termcp.Base.{
  true, false, Option, none, some, List, [], ◌∷◌, Text, Dict, ◌≡◌, ◌≢◌, refl, sym, ap, subst, ◌∙◌,
  ◌⊎◌, inl, inr, arith, text_eq, text_eq_iff, lookup, keys, keys-delete, length, length-delete,
  differs, keep_if, Absent, Distinct, Distinct-keep_if, All, All-keep_if, Bool-cases,
}
use termcp.Window.{Win, Channel, TabElement}
use termcp.Window.Channels.{
  is_active, select, switch_channel_tab, neighbor_from, channel_neighbor, switch_or_settle,
  drop_channel,
}
use termcp.Window.Strip.{elements, ActiveOpen, IsStrip}

-- The last id of a list, behind those that `p` stands for.
abbrev pub last_or : Option Text → List Text → Option Text
last_or p [] = p
last_or p (k ∷ ks) = last_or (some k) ks

-- The id is gone from the strip, so the search for it runs to the end.
neighbor_from-Absent :
    (sid : Text) (a p : Option Text) (ks : List Text)
    → Absent sid ks
    → neighbor_from sid (elements a ks) false p ≡ last_or p ks
unfolding neighbor_from
neighbor_from-Absent sid a p [] h = refl
neighbor_from-Absent sid a p (k ∷ ks) h = ground (arith, neighbor_from-Absent sid a (some k) ks h.1)

last_or-All :
    (P : Text → Type 0) (p : Option Text) (ks : List Text) (n : Text)
    → ((j : Text) → p ≡ some j → P j)
    → All P ks
    → last_or p ks ≡ some n
    → P n
last_or-All P p [] n h a e = h n e
last_or-All P p (k ∷ ks) n h a e = last_or-All P (some k) ks n (λ j q. subst P (cc) a.0) a.1 e

last_or-lookup :
    (m : Dict Channel) (p : Option Text) (n : Text)
    → last_or p (keys m) ≡ some n
    → (p ≡ some n) ⊎ ((ch : Channel) × (lookup n m ≡ some ch))
unfolding lookup
last_or-lookup [] p n e = inl e
last_or-lookup ((j, c) ∷ m) p n e = elim (Bool-cases (text_eq j n)) [
  | inl same ↦ inr (c, rw same)
  | inr other ↦ elim (last_or-lookup m (some j) n e) [
    | inl q ↦ ground (arith, text_eq_iff j n)
    | inr (ch, q) ↦ inr (ch, rw other q)
  ]
]

keep_if-elements :
    (sid : Text) (a : Option Text) (ks : List Text)
    → keep_if (λ e. differs sid e.chsid) (elements a ks) ≡ elements a (keep_if (differs sid) ks)
keep_if-elements sid a [] = refl
keep_if-elements sid a (k ∷ ks) = ground (arith, keep_if-elements sid a ks)

keep_if-Absent : (sid : Text) (ks : List Text) → Absent sid (keep_if (differs sid) ks)
keep_if-Absent sid [] = tt
keep_if-Absent sid (k ∷ ks) = ground (arith, keep_if-Absent sid ks)

-- A window whose channel `sid` has been dropped, before a new tab is selected.
pub record IsLoose (sid : Text) (w : Win) : Type 0 where
  pub distinct : Distinct (keys w.channels)
  pub named : All (λ k. k ≢ []) (keys w.channels)
  pub tabs_shown : w.tabs ≡ elements w.active_channel_sid (keys w.channels)
  pub instances_shown : w.instances ≡ elements w.active_channel_sid (keys w.channels)
  pub counted : w.channel_count ≡ length w.channels
  pub gone : Absent sid (keys w.channels)

pub drop_channel-IsLoose :
    (sid : Text) (w : Win) (ch : Channel)
    → IsStrip w
    → lookup sid w.channels ≡ some ch
    → IsLoose sid (drop_channel sid w)
unfolding drop_channel
drop_channel-IsLoose sid w ch v h =
    let e = keys-delete sid w.channels in
    let a = w.active_channel_sid in
    record {
      distinct = subst Distinct (sym e) (Distinct-keep_if sid _ v.distinct);
      named = subst (All (λ k. k ≢ [])) (sym e) (All-keep_if (λ k. k ≢ []) sid _ v.named);
      tabs_shown =
          ap (keep_if (λ t. differs sid t.chsid)) v.tabs_shown
          ∙ keep_if-elements sid a _
          ∙ ap (elements a) (sym e);
      instances_shown =
          ap (keep_if (λ t. differs sid t.chsid)) v.instances_shown
          ∙ keep_if-elements sid a _
          ∙ ap (elements a) (sym e);
      counted = omega (arith, v.counted, length-delete sid ch w.channels v.distinct h);
      gone = subst (Absent sid) (sym e) (keep_if-Absent sid (keys w.channels));
    }

-- Another tab was active: it still is, and it is still open.
pub loose_kept :
    (sid : Text) (w : Win) → IsLoose sid w → ActiveOpen w.active_channel_sid w.channels → IsStrip w
loose_kept sid w v open_still = record {
  distinct = v.distinct;
  named = v.named;
  tabs_shown = v.tabs_shown;
  instances_shown = v.instances_shown;
  counted = v.counted;
  active_open = open_still;
}

-- The search for the neighbour of a dropped channel finds the last tab, which is still open.
pub loose_last :
    (sid n : Text) (w : Win)
    → IsLoose sid w
    → last_or none (keys w.channels) ≡ some n
    → (ch : Channel) × (lookup n w.channels ≡ some ch) × (n ≢ []) × (text_eq n sid ≡ false)
loose_last sid n w v e = elim (last_or-lookup w.channels none n e) [
  | inl q ↦ cc
  | inr (ch, q) ↦ (
    ch,
    q,
    last_or-All (λ k. k ≢ []) none (keys w.channels) n (λ j r. cc) v.named e,
    last_or-All (λ k. text_eq k sid ≡ false) none (keys w.channels) n (λ j r. cc) v.gone e,
  )
]

pub loose_neighbor :
    (sid : Text) (w : Win) → IsLoose sid w → channel_neighbor sid w ≡ last_or none (keys w.channels)
unfolding channel_neighbor
loose_neighbor sid w v =
    ap (λ (t : List TabElement). neighbor_from sid t false none) v.tabs_shown
    ∙ neighbor_from-Absent sid w.active_channel_sid none (keys w.channels) v.gone

last_or-some : (j : Text) (ks : List Text) → last_or (some j) ks ≢ none
last_or-some j [] = λ e. cc
last_or-some j (k ∷ ks) = last_or-some k ks

pub last_or-none : (m : Dict Channel) → last_or none (keys m) ≡ none → m ≡ []
last_or-none [] e = refl
last_or-none ((j, c) ∷ m) e = absurd (last_or-some j (keys m) e)

switch_channel_tab-open :
    (n : Text) (w : Win) (ch : Channel)
    → lookup n w.channels ≡ some ch
    → is_active w.active_channel_sid n ≡ false
    → switch_channel_tab n w ≡ select n w
unfolding switch_channel_tab
switch_channel_tab-open n w ch h off = rw (h, switch_channel_tab) (rw off)

pub switch_or_settle-open :
    (n : Text) (w : Win) (ch : Channel)
    → n ≢ []
    → lookup n w.channels ≡ some ch
    → is_active w.active_channel_sid n ≡ false
    → switch_or_settle (some n) w ≡ select n w
unfolding switch_or_settle
switch_or_settle-open [] w ch ne h off = absurd (ne refl)
switch_or_settle-open (c ∷ n) w ch ne h off =
    rw (h, switch_or_settle) (switch_channel_tab-open (c ∷ n) w ch h off)

pub emptied_window :
    (w : Win)
    → w.channel_count ≡ 0
    → switch_or_settle none w
      ≡ record w { active_channel_sid = none; empty_shown = true; body_hidden = true }
unfolding switch_or_settle
emptied_window w h = ground arith
