-- ===== src/ConnForm/Cards/Chain.antt =====
-- The bound on the recursion for `_jumpsFromSections` of
-- internal/webui/assets/static/js/conn-form.js.
use termcp.Base.{
  ℕ, zero, suc, ◌+◌, ◌<◌, ◌≡◌, refl, ap, ◌∙◌, false, arith, inl, inr, none, [], ◌∷◌, ◌++◌, Text,
  Dict, codes, lookup, text_eq, text_eq_iff, length, length-append, Bool-cases, Option-cases,
}
use termcp.ConnForm.Toml.{Value}
use termcp.ConnForm.Cards.{jumps_from, jumps_from_sections, names_length, section_to_jump}

differ : (k name : Text) → length k < length name → text_eq k name ≡ false
differ k name h = elim (Bool-cases (text_eq k name)) [
  | inl e ↦ let same = ap length ((text_eq_iff k name).0 e) in absurd (omega arith)
  | inr e ↦ e
]

long-none :
    (name : Text) (m : Dict (Dict Value)) → names_length m < length name → lookup name m ≡ none
unfolding lookup
long-none name [] h = refl
long-none name ((k, s) ∷ m) h =
    let other : text_eq k name ≡ false = differ k name (omega arith) in
    rw (other, long-none name m (omega arith)) refl

jumps_from-enough :
    (fuel : ℕ) (name : Text) (m : Dict (Dict Value))
    → names_length m < fuel + length name
    → jumps_from (suc fuel) name m ≡ jumps_from fuel name m
unfolding jumps_from
jumps_from-enough zero name m h = rw (jumps_from, long-none name m (omega arith)) refl
jumps_from-enough (suc fuel) name m h =
    let longer : names_length m < fuel + length (name ++ codes ".jump") =
      rw (length-append name (codes ".jump")) (omega arith) in
    let ih = jumps_from-enough fuel (name ++ codes ".jump") m longer in
    elim (Option-cases (lookup name m)) [
      | inl e ↦ rw (jumps_from, e) refl
      | inr (s, e) ↦ rw (jumps_from, e) (ap (λ r. section_to_jump s ∷ r) ih)
    ]

-- The chain of jumps ends because a section is missing, never because the bound is reached: a larger
-- bound gives the same cards.
pub jumps_from_sections-enough :
    (extra : ℕ) (m : Dict (Dict Value))
    → jumps_from (extra + (names_length m + 1)) (codes "jump") m ≡ jumps_from_sections m
unfolding jumps_from_sections
jumps_from_sections-enough zero m =
    let e : 0 + (names_length m + 1) ≡ names_length m + 1 = omega arith in
    ap (λ f. jumps_from f (codes "jump") m) e
jumps_from_sections-enough (suc extra) m =
    let bound = names_length m + 1 in
    let e : suc extra + bound ≡ suc (extra + bound) = omega arith in
    let low : names_length m < (extra + bound) + length (codes "jump") = omega arith in
    ap (λ f. jumps_from f (codes "jump") m) e
    ∙ jumps_from-enough (extra + bound) (codes "jump") m low
    ∙ jumps_from_sections-enough extra m
