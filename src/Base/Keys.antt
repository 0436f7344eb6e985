-- ===== src/Base/Keys.antt =====
-- The keys of a map, which are what `Object.keys` returns.
use Prim.Native.Nat.{suc}
use mathlib.Core.Path.{◌≡◌, refl}
use mathlib.Core.Bool.{Bool, true, false, not}
use mathlib.Core.List.{List, [], ◌∷◌, ◌++◌}
use mathlib.Core.Option.{Option, none, some}
use native.Mathlib.Omega.{arith}
use termcp.Base.Lists.{length, keep_if, All}
use termcp.Base.Strings.{Text, text_eq, text_eq_iff}
use termcp.Base.Maps.{Dict, lookup, insert, delete}

abbrev pub is_some {ℓ} : {A : Type ℓ} → Option A → Bool
is_some none = false
is_some (some a) = true

abbrev pub Absent : Text → List Text → Type 0
Absent k = All (λ j. text_eq j k ≡ false)

abbrev pub Distinct : List Text → Type 0
Distinct [] = Unit
Distinct (k ∷ ks) = Absent k ks × Distinct ks

abbrev pub differs : Text → Text → Bool
differs k j = not (text_eq j k)

module _ {ℓ} {V : Type ℓ} where
  abbrev pub keys : Dict V → List Text
  keys [] = []
  keys ((k, v) ∷ m) = k ∷ keys m

  pub keys-insert :
      (k : Text) (v : V) (m : Dict V) → lookup k m ≡ none → keys (insert k v m) ≡ keys m ++ k ∷ []
  unfolding lookup insert
  keys-insert k v [] h = refl
  keys-insert k v ((j, w) ∷ m) h = ground (arith, keys-insert k v m)

  pub length-insert :
      (k : Text) (v : V) (m : Dict V) → lookup k m ≡ none → length (insert k v m) ≡ suc (length m)
  unfolding lookup insert
  length-insert k v [] h = refl
  length-insert k v ((j, w) ∷ m) h = ground (arith, length-insert k v m)

  pub keys-insert_old :
      (k : Text) (v w : V) (m : Dict V) → lookup k m ≡ some w → keys (insert k v m) ≡ keys m
  unfolding lookup insert
  keys-insert_old k v w [] h = cc
  keys-insert_old k v w ((j, x) ∷ m) h = ground (arith, keys-insert_old k v w m)

  pub keys-delete : (k : Text) (m : Dict V) → keys (delete k m) ≡ keep_if (differs k) (keys m)
  unfolding delete
  keys-delete k [] = refl
  keys-delete k ((j, w) ∷ m) = ground (arith, keys-delete k m)

  pub lookup-Absent : (k : Text) (m : Dict V) → lookup k m ≡ none → Absent k (keys m)
  unfolding lookup
  lookup-Absent k [] h = tt
  lookup-Absent k ((j, w) ∷ m) h = ground (arith, lookup-Absent k m)

  pub Absent-lookup : (k : Text) (m : Dict V) → Absent k (keys m) → lookup k m ≡ none
  unfolding lookup
  Absent-lookup k [] h = refl
  Absent-lookup k ((j, w) ∷ m) h = ground (arith, Absent-lookup k m h.1)

  pub delete-Absent : (k : Text) (m : Dict V) → Absent k (keys m) → delete k m ≡ m
  unfolding delete
  delete-Absent k [] h = refl
  delete-Absent k ((j, w) ∷ m) h = ground (arith, delete-Absent k m h.1)

  pub length-delete :
      (k : Text) (v : V) (m : Dict V)
      → Distinct (keys m)
      → lookup k m ≡ some v
      → length m ≡ suc (length (delete k m))
  unfolding lookup delete
  length-delete k v [] d h = cc
  length-delete k v ((j, w) ∷ m) d h =
      ground (arith, text_eq_iff j k, delete-Absent j m d.0, length-delete k v m d.1)

Absent-keep_if : (k j : Text) (ks : List Text) → Absent k ks → Absent k (keep_if (differs j) ks)
Absent-keep_if k j [] h = tt
Absent-keep_if k j (i ∷ ks) h = ground (arith, Absent-keep_if k j ks h.1)

pub Distinct-keep_if : (j : Text) (ks : List Text) → Distinct ks → Distinct (keep_if (differs j) ks)
Distinct-keep_if j [] h = tt
Distinct-keep_if j (i ∷ ks) h = ground (arith, Distinct-keep_if j ks h.1, Absent-keep_if i j ks h.0)

pub All-keep_if :
    (P : Text → Type 0) (j : Text) (ks : List Text) → All P ks → All P (keep_if (differs j) ks)
All-keep_if P j [] h = tt
All-keep_if P j (i ∷ ks) h = ground (arith, All-keep_if P j ks h.1)

Absent-snoc :
    (k j : Text) (ks : List Text) → Absent k ks → text_eq j k ≡ false → Absent k (ks ++ j ∷ [])
Absent-snoc k j [] h e = (e, tt)
Absent-snoc k j (i ∷ ks) h e = (h.0, Absent-snoc k j ks h.1 e)

pub Distinct-snoc :
    (k : Text) (ks : List Text) → Distinct ks → Absent k ks → Distinct (ks ++ k ∷ [])
Distinct-snoc k [] d h = (tt, tt)
Distinct-snoc k (i ∷ ks) d h = (
  Absent-snoc i k ks d.0 (ground (arith, text_eq_iff i k, text_eq_iff k i)),
  Distinct-snoc k ks d.1 h.1,
)
