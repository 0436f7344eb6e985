-- ===== src/Notify/Highlight.antt =====
-- A session is highlighted only while a notification of it is there:
-- internal/webui/assets/static/js/util.js.
use termcp.Base.{
  ℕ, suc, Bool, true, false, not, ◌&&◌, ◌||◌, Option, none, some, List, [], ◌∷◌, ◌++◌, Text, ◌≡◌,
  ◌≢◌, refl, sym, ◌∙◌, ap, arith, text_eq, lookup, lookup-insert, lookup-delete, is_some, any,
  Bool-cases, inl, inr, ◌==◌, if◌then◌else◌,
}
use termcp.Launch.Opening.{focus_session_window}
use termcp.Notify.{
  Notice, Card, Board, Permission, granted, default, denied, clear_sess_notified,
  mark_sess_notified, notify_by, browser_system_notify, new_card, show_ui_notify, card_at,
  change_card, retired, off_stack, dismiss_found, dismiss_ui_notify, remove_card, open_review_panel,
  open_panel, panel_window, retried, retries, open_session, for_decision, on_approval_event, Event,
  shows, closes, expires, leaves, clicks, decides, clicked, expired, notify, notify_all,
}

abbrev pub live_for : Text → Card → Bool
live_for sid c = not c.dismissed && text_eq c.session sid

abbrev pub highlighted : Text → Board → Bool
highlighted sid b = is_some (lookup sid b.highlights)

abbrev pub has_card : Text → Board → Bool
has_card sid b = any (live_for sid) b.cards

inserted :
    (e : Bool) (o : Option Bool) (a : Bool)
    → (not (is_some o) || a) ≡ true
    → (not (is_some (if e then some true else o)) || (a || e)) ≡ true
inserted true o a k = ground arith
inserted false o a k = ground arith

deleted :
    (e : Bool) (o : Option Bool) (a c : Bool)
    → (e ≡ false → a ≡ c)
    → (not (is_some o) || c) ≡ true
    → (not (is_some (if e then none else o)) || a) ≡ true
deleted true o a c f k = refl
deleted false o a c f k = rw (f refl) k

empty-differs : (sid : Text) → sid ≢ [] → text_eq [] sid ≡ false
unfolding text_eq
empty-differs [] h = absurd (h refl)
empty-differs (x ∷ s) h = refl

abbrev session_of_found : Option Card → Text
session_of_found none = []
session_of_found (some c) = c.session

same_card : (o : Option Card) {c d : Card} → o ≡ some c → o ≡ some d → d.session ≡ c.session
same_card o q r = ap session_of_found (sym r ∙ q)

module _ (sid : Text) where
  -- Highlighted only with a card.
  abbrev pub Backed : Board → Type 0
  Backed b = (not (highlighted sid b) || has_card sid b) ≡ true

  any-add :
      (cs : List Card) (c : Card)
      → any (live_for sid) (cs ++ c ∷ []) ≡ (any (live_for sid) cs || live_for sid c)
  any-add [] c = ground arith
  any-add (d ∷ cs) c = ground (arith, any-add cs c)

  any-change :
      (k : ℕ) (f : Card → Card) (cs : List Card)
      → ((c : Card) → card_at k cs ≡ some c → live_for sid (f c) ≡ live_for sid c)
      → any (live_for sid) (change_card k f cs) ≡ any (live_for sid) cs
  any-change k f [] h = refl
  any-change k f (c ∷ cs) h = elim (Bool-cases (c.number == k)) [
    | inl e ↦ rw e (ap (λ b. if b then true else any (live_for sid) cs) (h c (rw e refl)))
    | inr e ↦
        rw e
          (ap (λ b. if live_for sid c then true else b) (any-change k f cs (λ d q. h d (rw e q))))
  ]

  notify_by-same :
      (p : Permission) (b : Bool) (n : Notice) (d : Board)
      → ((notify_by p b n d).highlights ≡ d.highlights) × ((notify_by p b n d).cards ≡ d.cards)
  notify_by-same granted b n d = (refl, refl)
  notify_by-same default true n d = (refl, refl)
  notify_by-same default false n d = (refl, refl)
  notify_by-same denied b n d = (refl, refl)

  Backed-same :
      (b d : Board) → d.highlights ≡ b.highlights → d.cards ≡ b.cards → Backed b → Backed d
  Backed-same b d h c k = rw (h, c) k

  if-Backed : (c : Bool) (b d : Board) → Backed b → Backed d → Backed (if c then b else d)
  if-Backed true b d h k = h
  if-Backed false b d h k = k

  added-Backed :
      (b : Board) (c : Card) (n : ℕ)
      → Backed b
      → Backed (record b { cards = b.cards ++ c ∷ []; next_card = n })
  added-Backed b c n k = rw (any-add b.cards c) (ground (arith, k))

  marked-Backed :
      (s : Text) (c : Card) (b : Board) (n : ℕ)
      → c.session ≡ s
      → c.dismissed ≡ false
      → Backed b
      → Backed (mark_sess_notified s (record b { cards = b.cards ++ c ∷ []; next_card = n }))
  unfolding mark_sess_notified
  marked-Backed [] c b n e d k = added-Backed b c n k
  marked-Backed (x ∷ s) c b n e d k =
      rw (any-add b.cards c, lookup-insert (x ∷ s) sid true b.highlights, d, e)
        (inserted (text_eq (x ∷ s) sid) (lookup sid b.highlights) (any (live_for sid) b.cards) k)

  show-Backed :
      (later : Bool) (n : Notice) (b : Board) → Backed b → Backed (show_ui_notify later n b)
  unfolding show_ui_notify browser_system_notify new_card
  show-Backed later n b k =
      let c = new_card b.next_card n in
      let m =
        mark_sess_notified n.session_id
          (record b { cards = b.cards ++ c ∷ []; next_card = suc b.next_card }) in
      let same = notify_by-same m.permission later n m in
      Backed-same m (browser_system_notify later n m) same.0 same.1
        (marked-Backed n.session_id c b (suc b.next_card) refl refl k)

  off_stack-live : (c : Card) → live_for sid (off_stack c) ≡ live_for sid c
  off_stack-live c = elim (Bool-cases c.dismissed) [ inl e ↦ simp e refl | inr e ↦ simp e refl ]

  remove-Backed : (k : ℕ) (b : Board) → Backed b → Backed (remove_card k b)
  unfolding remove_card
  remove-Backed k b h = rw (any-change k off_stack b.cards (λ c q. off_stack-live c)) h

  clear-Backed :
      (s : Text) (b : Board) (cs : List Card)
      → sid ≢ []
      → (text_eq s sid ≡ false → any (live_for sid) cs ≡ any (live_for sid) b.cards)
      → Backed b
      → Backed (clear_sess_notified s (record b { cards = cs }))
  unfolding clear_sess_notified
  clear-Backed [] b cs ne f k = rw (f (empty-differs sid ne)) k
  clear-Backed (x ∷ s) b cs ne f k =
      rw (lookup-delete (x ∷ s) sid b.highlights)
        (deleted (text_eq (x ∷ s) sid) (lookup sid b.highlights) _ (any (live_for sid) b.cards) f k)

  retired-live :
      (c : Card) → text_eq c.session sid ≡ false → live_for sid (retired c) ≡ live_for sid c
  retired-live c e = rw e (ground arith)

  dismiss_found-Backed :
      (k : ℕ) (o : Option Card) (b : Board)
      → sid ≢ []
      → card_at k b.cards ≡ o
      → Backed b
      → Backed (dismiss_found k o b)
  unfolding dismiss_found
  dismiss_found-Backed k none b ne q h = h
  dismiss_found-Backed k (some c) b ne q h = if-Backed c.dismissed b _ h (
      clear-Backed c.session b (change_card k retired b.cards) ne
        (λ e.
          any-change k retired b.cards (λ d r.
            retired-live d (ap (λ x. text_eq x sid) (same_card (card_at k b.cards) q r) ∙ e)))
        h)

  dismiss-Backed : (k : ℕ) (b : Board) → sid ≢ [] → Backed b → Backed (dismiss_ui_notify k b)
  unfolding dismiss_ui_notify
  dismiss-Backed k b ne h = dismiss_found-Backed k (card_at k b.cards) b ne refl h

  open_panel-same :
      (o : Option ℕ) (b : Board)
      → ((open_panel o b).highlights ≡ b.highlights) × ((open_panel o b).cards ≡ b.cards)
  unfolding open_panel
  open_panel-same none b = (refl, refl)
  open_panel-same (some n) b = (refl, refl)

  panel-same :
      (s : Text) (b : Board)
      → ((open_review_panel s b).highlights ≡ b.highlights)
        × ((open_review_panel s b).cards ≡ b.cards)
  unfolding open_review_panel
  panel-same s b = elim (Bool-cases (is_some (panel_window s b.desk))) [
    | inl e ↦ rw e (open_panel-same (panel_window s b.desk) b)
    | inr e ↦ rw e (refl, refl)
  ]

  retried-Backed : (ss : List Text) (b : Board) → Backed b → Backed (retried ss b)
  unfolding retried
  retried-Backed [] b h = h
  retried-Backed (s ∷ ss) b h =
      let c : Board = record b { panel_retries = ss } in
      let same = open_panel-same (panel_window s b.desk) c in
      Backed-same c (open_panel (panel_window s b.desk) c) same.0 same.1
        (Backed-same b c refl refl h)

  open-Backed :
      (c : Card) (s : Text × Bool) (b : Board) → sid ≢ [] → Backed b → Backed (open_session c s b)
  unfolding open_session
  open-Backed c (name, running) b ne h =
      let seen = dismiss-Backed c.number b ne h in
      let there : Board = record (dismiss_ui_notify c.number b) {
        desk =
            focus_session_window name c.session (not running) (dismiss_ui_notify c.number b).desk;
      } in
      let moved = Backed-same (dismiss_ui_notify c.number b) there refl refl seen in
      let same = panel-same c.session there in
      if-Backed c.review (open_review_panel c.session there) there
        (Backed-same there (open_review_panel c.session there) same.0 same.1 moved) moved

  clicked-Backed : (o : Option Card) (b : Board) → sid ≢ [] → Backed b → Backed (clicked o b)
  clicked-Backed none b ne h = h
  clicked-Backed (some c) b ne h = open-Backed c _ b ne h

  expired-Backed :
      (k : ℕ) (o : Option Card) (b : Board) → sid ≢ [] → Backed b → Backed (expired k o b)
  expired-Backed k none b ne h = h
  expired-Backed k (some c) b ne h = if-Backed (is_some c.timer) _ b (dismiss-Backed k b ne h) h

  notify-Backed : (e : Event) (b : Board) → sid ≢ [] → Backed b → Backed (notify e b)
  unfolding notify on_approval_event
  notify-Backed (shows later n) b ne h = show-Backed later n b h
  notify-Backed (closes k) b ne h = dismiss-Backed k b ne h
  notify-Backed (expires k) b ne h = expired-Backed k (card_at k b.cards) b ne h
  notify-Backed (leaves k) b ne h = remove-Backed k b h
  notify-Backed (clicks k) b ne h = clicked-Backed (card_at k b.cards) b ne h
  notify-Backed (decides later title n) b ne h = show-Backed later (for_decision title n) b h
  notify-Backed retries b ne h = retried-Backed b.panel_retries b h

  -- If a session, named by a non-empty id, is highlighted only with a notification of it that has
  -- not been dismissed, then so it is after any sequence of notifications, decisions, clicks,
  -- closings and expiries.
  pub notify_all-Backed :
      (es : List Event) (b : Board)
      → sid ≢ []
      → (not (highlighted sid b) || has_card sid b) ≡ true
      → (not (highlighted sid (notify_all es b)) || has_card sid (notify_all es b)) ≡ true
  unfolding notify_all
  notify_all-Backed [] b ne h = h
  notify_all-Backed (e ∷ es) b ne h = notify_all-Backed es (notify e b) ne (notify-Backed e b ne h)
