-- ===== src/Sessions/Grid/Deletion.antt =====
-- A run of deletions, from the first answer to the last: internal/webui/assets/static/js/conn-form.js.
use termcp.Base.{
  ℕ, true, not, ◌&&◌, Option, none, some, List, [], ◌∷◌, ◌++◌, append_assoc, append-nil, suc,
  length, Text, text_eq, lookup, lookup-restrict, any, ◌≡◌, refl, sym, ap, ◌∙◌, subst, arith,
  if◌then◌else◌,
}
use termcp.Sessions.{Session}
use termcp.Sessions.Grid.{
  Grid, Label, Kind, Job, ended, asking, lists, render_session_grid, update_session_batch_bar,
}
use termcp.Sessions.Grid.Runs.{
  Answer, answers, confirms, accepted, refused, done_text, forget_deleted, go_on, answered, confirm,
  busy_text, turn, send_delete, failed_text,
}
use termcp.Sessions.Grid.Marked.{close_by_sid-grid, forget_deleted-selected}

-- The answers to one run, in order.
unfoldable pub turns_of : List Answer → Job × Grid → Job × Grid
unfolding turn
turns_of [] jg = jg
turns_of (a ∷ rs) (j, g) = turns_of rs (turn (answers a) j g)

-- `accepted` once for each.
abbrev pub all_accepted : List Text → List Answer
all_accepted [] = []
all_accepted (x ∷ xs) = accepted ∷ all_accepted xs

-- The deletions sent, accepted and put into effect.
unfoldable deleted : List Text → Grid → Grid
deleted [] g = g
deleted (x ∷ xs) g = deleted xs (forget_deleted x (send_delete x g))

turns_of-accepted :
    (k : Kind) (n : ℕ) (xs ys : List Text) (rs : List Answer) (g : Grid)
    → turns_of (all_accepted xs ++ rs) (go_on k n (xs ++ ys) g)
      ≡ turns_of rs (go_on k n ys (deleted xs g))
unfolding turns_of deleted go_on turn answered
turns_of-accepted k n [] ys rs g = refl
turns_of-accepted k n (x ∷ xs) ys rs g =
    turns_of-accepted k n xs ys rs (forget_deleted x (send_delete x g))

turns_of-all :
    (k : Kind) (n : ℕ) (xs : List Text) (g : Grid)
    → turns_of (all_accepted xs) (go_on k n xs g) ≡ go_on k n [] (deleted xs g)
unfolding turns_of deleted go_on turn answered
turns_of-all k n [] g = refl
turns_of-all k n (x ∷ xs) g = turns_of-all k n xs (forget_deleted x (send_delete x g))

forget-deletes : (x : Text) (g : Grid) → (forget_deleted x g).deletes ≡ g.deletes
unfolding forget_deleted
forget-deletes x g = refl

deleted-deletes : (xs : List Text) (g : Grid) → (deleted xs g).deletes ≡ g.deletes ++ xs
unfolding deleted
deleted-deletes [] g = sym (append-nil g.deletes)
deleted-deletes (x ∷ xs) g =
    deleted-deletes xs (forget_deleted x (send_delete x g))
    ∙ ap (λ ds. ds ++ xs) (forget-deletes x (send_delete x g))
    ∙ append_assoc g.deletes (x ∷ []) xs

forget-snapshot :
    (x : Text) (g : Grid) → (forget_deleted x g).registry.snapshot ≡ g.registry.snapshot
unfolding forget_deleted
forget-snapshot x g = (close_by_sid-grid x g.registry).0

deleted-snapshot :
    (xs : List Text) (g : Grid) → (deleted xs g).registry.snapshot ≡ g.registry.snapshot
unfolding deleted
deleted-snapshot [] g = refl
deleted-snapshot (x ∷ xs) g =
    deleted-snapshot xs (forget_deleted x (send_delete x g)) ∙ forget-snapshot x (send_delete x g)

deleted-selected :
    (xs : List Text) (g : Grid) (j : Text)
    → lookup j (deleted xs g).registry.selected
      ≡ (if any (λ x. text_eq x j) xs then none else lookup j g.registry.selected)
unfolding deleted
deleted-selected [] g j = refl
deleted-selected (x ∷ xs) g j = ground (
  arith,
  deleted-selected xs (forget_deleted x (send_delete x g)) j,
  forget_deleted-selected x (send_delete x g) j,
)

-- What drawing the grid leaves of the selection.
render-selected :
    (ss : List Session) (b : Option Label) (g : Grid) (j : Text)
    → lookup j (render_session_grid ss b g).registry.selected
      ≡ (if lists ss j then lookup j g.registry.selected else none)
unfolding render_session_grid update_session_batch_bar lookup
render-selected [] b g j = refl
render-selected (s ∷ ss) b g j = lookup-restrict (lists (s ∷ ss)) j g.registry.selected

render-rest :
    (ss : List Session) (b : Option Label) (g : Grid)
    → ((render_session_grid ss b g).deletes ≡ g.deletes) × ((render_session_grid ss b g).banner ≡ b)
unfolding render_session_grid update_session_batch_bar
render-rest [] b g = (refl, refl)
render-rest (s ∷ ss) b g = (refl, refl)

-- The grid at the end of a run, after the deletions `sent`, of which `gone` took effect.
pub record IsOver (g : Grid) (sent gone : List Text) (q : Job × Grid) : Type 0 where
  pub over : q.0 ≡ ended
  pub requests : q.1.deletes ≡ g.deletes ++ sent
  pub no_banner : q.1.banner ≡ none
  pub selection :
      (j : Text)
      → lookup j q.1.registry.selected ≡ (
          if lists g.registry.snapshot j && not (any (λ x. text_eq x j) gone)
          then lookup j g.registry.selected
          else none)

drawn-selected :
    (xs : List Text) (b : Option Label) (g h : Grid) (j : Text)
    → h.registry ≡ (deleted xs g).registry
    → lookup j (render_session_grid h.registry.snapshot b h).registry.selected ≡ (
        if lists g.registry.snapshot j && not (any (λ x. text_eq x j) xs)
        then lookup j g.registry.selected
        else none)
drawn-selected xs b g h j e =
    let same = ap (λ r. r.snapshot) e ∙ deleted-snapshot xs g in
    ap (λ ss. lookup j (render_session_grid ss b h).registry.selected) same
    ∙ render-selected g.registry.snapshot b h j
    ∙ ap (λ r. if lists g.registry.snapshot j then lookup j r.selected else none) e
    ∙ ground (arith, deleted-selected xs g j)

refused-IsOver :
    (k : Kind) (n : ℕ) (y msg : Text) (xs ys : List Text) (g : Grid)
    → IsOver g (xs ++ y ∷ []) xs (turns_of (refused msg ∷ []) (go_on k n (y ∷ ys) (deleted xs g)))
unfolding turns_of turn answered go_on
refused-IsOver k n y msg xs ys g =
    let h = record (send_delete y (deleted xs g)) { banner = some (failed_text k msg) } in
    record {
      over = refl;
      requests =
          (render-rest h.registry.snapshot none h).0
          ∙ ap (λ ds. ds ++ y ∷ []) (deleted-deletes xs g)
          ∙ append_assoc g.deletes xs (y ∷ []);
      no_banner = (render-rest h.registry.snapshot none h).1;
      selection = λ j. drawn-selected xs none g h j refl;
    }

accepted-IsOver :
    (k : Kind) (n : ℕ) (xs : List Text) (g : Grid) → IsOver g xs xs (go_on k n [] (deleted xs g))
unfolding go_on
accepted-IsOver k n xs g =
    let h = record (deleted xs g) { banner = none; toast = some (done_text k n) } in
    record {
      over = refl;
      requests = (render-rest h.registry.snapshot none h).0 ∙ deleted-deletes xs g;
      no_banner = (render-rest h.registry.snapshot none h).1;
      selection = λ j. drawn-selected xs none g h j refl;
    }

-- The answers to the run that the dialog starts once it is confirmed.
abbrev pub run_of : Kind → Text → List Text → List Answer → Grid → Job × Grid
run_of k sid sids rs g = turns_of rs (turn (confirms true) (asking k sid sids) g)

-- The banner that says what goes on does not matter.
busy-IsOver :
    (b : Option Label) (g : Grid) (sent gone : List Text) (q : Job × Grid)
    → IsOver (record g { banner = b }) sent gone q
    → IsOver g sent gone q
busy-IsOver b g sent gone q v = record {
  over = v.over;
  requests = v.requests;
  no_banner = v.no_banner;
  selection = v.selection;
}

run_of-go_on :
    (k : Kind) (sid : Text) (sids ts : List Text) (rs : List Answer) (g : Grid)
    → sid ∷ sids ≡ ts
    → let n = suc (length sids) in
      run_of k sid sids rs g
      ≡ turns_of rs (go_on k n ts (record g { banner = some (busy_text k n) }))
unfolding turns_of turn confirm go_on
run_of-go_on k sid sids ts rs g e =
    let n = suc (length sids) in
    ap (λ us. turns_of rs (go_on k n us (record g { banner = some (busy_text k n) }))) e

-- When the server accepts the deletion of each of `xs` and refuses the one after them, the run ends
-- there: the requests sent are those, the sessions `xs` are no longer selected, every other listed
-- session is selected as it was, and the grid shows no banner, not even that of the error.
pub run_of-refused :
    (k : Kind) (sid : Text) (sids xs ys : List Text) (y msg : Text) (g : Grid)
    → sid ∷ sids ≡ xs ++ y ∷ ys
    → IsOver g (xs ++ y ∷ []) xs (run_of k sid sids (all_accepted xs ++ refused msg ∷ []) g)
run_of-refused k sid sids xs ys y msg g e =
    let n = suc (length sids) in
    let b = record g { banner = some (busy_text k n) } in
    let rs = refused msg ∷ [] in
    subst (IsOver g (xs ++ y ∷ []) xs) {x = turns_of rs (go_on k n (y ∷ ys) (deleted xs b))}
      (sym (
        run_of-go_on k sid sids (xs ++ y ∷ ys) (all_accepted xs ++ rs) g e
        ∙ turns_of-accepted k n xs (y ∷ ys) rs b))
      (busy-IsOver _ g (xs ++ y ∷ []) xs _ (refused-IsOver k n y msg xs ys b))

-- When the server accepts every deletion, one request is sent for each session of the run, in order;
-- at its end they are no longer selected, every other listed session is selected as it was, and the
-- banner is gone.
pub run_of-accepted :
    (k : Kind) (sid : Text) (sids : List Text) (g : Grid)
    → IsOver g (sid ∷ sids) (sid ∷ sids) (run_of k sid sids (all_accepted (sid ∷ sids)) g)
run_of-accepted k sid sids g =
    let n = suc (length sids) in
    let b = record g { banner = some (busy_text k n) } in
    let xs = sid ∷ sids in
    subst (IsOver g xs xs) {x = go_on k n [] (deleted xs b)}
      (sym (run_of-go_on k sid sids xs (all_accepted xs) g refl ∙ turns_of-all k n xs b))
      (busy-IsOver _ g xs xs _ (accepted-IsOver k n xs b))
