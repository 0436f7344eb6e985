-- ===== src/Window/Strip.antt =====
-- The tab strip and the channels of a window under the operations of
-- internal/webui/assets/static/js/terminal-view.js that open, select or close a tab.
use termcp.Base.{
  ◌+◌, Bool, true, Option, none, some, List, [], ◌∷◌, ◌++◌, Text, Dict, ◌≡◌, ◌≢◌, refl, sym, ap,
  subst, ◌∙◌, arith, lookup, insert, lookup-insert_self, text_eq_self, keys, keys-insert, length,
  length-insert, lookup-Absent, Absent, Distinct, Distinct-snoc, All, All-append,
}
use termcp.Window.{Win, Channel, TabElement}
use termcp.Window.Channels.{
  is_active, mark, deactivate, select, switch_channel_tab, switch_cases, new_channel, open_tab,
  create_channel_tab, create_cases,
}

-- The elements that show the channels `ks`, of which `a` is the active one.
abbrev pub elements : Option Text → List Text → List TabElement
elements a [] = []
elements a (k ∷ ks) = record { chsid = k; active = is_active a k } ∷ elements a ks

-- There is an active channel unless there is none at all.
abbrev pub ActiveOpen : Option Text → Dict Channel → Type 0
ActiveOpen none m = m ≡ []
ActiveOpen (some s) m = (ch : Channel) × (lookup s m ≡ some ch)

pub record IsStrip (w : Win) : Type 0 where
  pub distinct : Distinct (keys w.channels)
  pub named : All (λ k. k ≢ []) (keys w.channels)
  pub tabs_shown : w.tabs ≡ elements w.active_channel_sid (keys w.channels)
  pub instances_shown : w.instances ≡ elements w.active_channel_sid (keys w.channels)
  pub counted : w.channel_count ≡ length w.channels
  pub active_open : ActiveOpen w.active_channel_sid w.channels

mark-elements :
    (sid : Text) (a : Option Text) (ks : List Text)
    → mark sid (elements a ks) ≡ elements (some sid) ks
unfolding mark
mark-elements sid a [] = refl
mark-elements sid a (k ∷ ks) = cc (mark-elements sid a ks)

deactivate-elements :
    (sid : Text) (a : Option Text) (ks : List Text)
    → Absent sid ks
    → deactivate (elements a ks) ≡ elements (some sid) ks
unfolding deactivate
deactivate-elements sid a [] h = refl
deactivate-elements sid a (k ∷ ks) h = ground (arith, deactivate-elements sid a ks h.1)

elements-append :
    (a : Option Text) (ks js : List Text) → elements a (ks ++ js) ≡ elements a ks ++ elements a js
elements-append a [] js = refl
elements-append a (k ∷ ks) js = cc (elements-append a ks js)

-- Selecting an open tab makes a strip of any window whose elements stand in the order of its keys.
pub select-IsStrip :
    (sid : Text) (w : Win) (ch : Channel)
    → Distinct (keys w.channels)
    → All (λ k. k ≢ []) (keys w.channels)
    → w.tabs ≡ elements w.active_channel_sid (keys w.channels)
    → w.instances ≡ elements w.active_channel_sid (keys w.channels)
    → w.channel_count ≡ length w.channels
    → lookup sid w.channels ≡ some ch
    → IsStrip (select sid w)
unfolding select
select-IsStrip sid w ch distinct named tabs_shown instances_shown counted h = record {
  distinct = distinct;
  named = named;
  tabs_shown = ap (mark sid) tabs_shown ∙ mark-elements sid _ _;
  instances_shown = ap (mark sid) instances_shown ∙ mark-elements sid _ _;
  counted = counted;
  active_open = (ch, h);
}

-- Selecting a tab keeps the strip consistent.
pub switch_channel_tab-IsStrip :
    (sid : Text) (w : Win) → IsStrip w → IsStrip (switch_channel_tab sid w)
switch_channel_tab-IsStrip sid w v =
    switch_cases IsStrip sid w v
      λ ch e. select-IsStrip sid w ch v.distinct v.named v.tabs_shown v.instances_shown v.counted e

shown_after_open :
    (sid : Text) (es : List TabElement) (m : Dict Channel) (a : Option Text) (ch : Channel)
    → lookup sid m ≡ none
    → es ≡ elements a (keys m)
    → deactivate es ++ record { chsid = sid; active = true } ∷ []
      ≡ elements (some sid) (keys (insert sid ch m))
shown_after_open sid es m a ch fresh shown = rw (
  shown,
  keys-insert sid ch m fresh,
  elements-append (some sid) (keys m) (sid ∷ []),
  deactivate-elements sid a (keys m) (lookup-Absent sid m fresh),
  text_eq_self sid,
)

open_tab-IsStrip :
    (sid : Text) (history : Bool) (w : Win)
    → IsStrip w
    → sid ≢ []
    → lookup sid w.channels ≡ none
    → IsStrip (open_tab sid history w)
unfolding open_tab
open_tab-IsStrip sid history w v ne fresh = record {
  distinct =
      subst Distinct (sym (keys-insert sid _ w.channels fresh))
        (Distinct-snoc sid _ v.distinct (lookup-Absent sid w.channels fresh));
  named =
      subst (All (λ k. k ≢ [])) (sym (keys-insert sid _ w.channels fresh))
        (All-append (λ k. k ≢ []) (keys w.channels) (sid ∷ []) v.named (ne, tt));
  tabs_shown = shown_after_open sid w.tabs w.channels _ _ fresh v.tabs_shown;
  instances_shown = shown_after_open sid w.instances w.channels _ _ fresh v.instances_shown;
  counted = omega (
    arith,
    v.counted,
    length-insert sid (new_channel history (w.channel_seq + 1)) w.channels fresh,
  );
  active_open = (new_channel history (w.channel_seq + 1), lookup-insert_self sid _ w.channels);
}

-- So does opening one: an id that has a tab is only selected.
pub create_channel_tab-IsStrip :
    (sid : Text) (history : Bool) (w : Win)
    → sid ≢ []
    → IsStrip w
    → IsStrip (create_channel_tab sid history w)
create_channel_tab-IsStrip sid history w ne v =
    create_cases IsStrip sid history w (λ _ _. switch_channel_tab-IsStrip sid w v)
      (λ fresh. open_tab-IsStrip sid history w v ne fresh)
