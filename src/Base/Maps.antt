-- ===== src/Base/Maps.antt =====
-- Go's `map[string]V`: an association list with one entry to a key. A range over a map visits the
-- entries in the order of the list, and Go leaves that order open: theorems range over all lists.
use mathlib.Core.Path.{◌≡◌, refl}
use mathlib.Core.Bool.{Bool, true, false}
use mathlib.Core.List.{List, [], ◌∷◌}
use mathlib.Core.Option.{Option, none, some}
use native.Mathlib.Omega.{arith}
use mathlib.Core.Logic.{inl, inr}
use mathlib.Core.Path.{subst}
use microbe.Base.Tests.{if◌then◌else◌, Bool-cases}
use microbe.Base.Lists.{length, contains, All}
use microbe.Base.Texts.{Text, text_eq, text_eq_iff, text_eq_refl}

abbrev pub Map {ℓ} : Type ℓ → Type ℓ
Map V = List (Text × V)

some_inj {ℓ} : {V : Type ℓ} {a b : V} → ◌≡◌ {A = Option V} (some a) (some b) → a ≡ b
some_inj e = cc e

module _ {ℓ} {V : Type ℓ} where
  -- `v, ok := m[k]`
  unfoldable pub lookup : Text → Map V → Option V
  lookup k [] = none
  lookup k ((j, v) ∷ m) = if text_eq j k then some v else lookup k m

  -- `m[k] = v`
  unfoldable pub insert : Text → V → Map V → Map V
  insert k v [] = (k, v) ∷ []
  insert k v ((j, w) ∷ m) = if text_eq j k then (k, v) ∷ m else (j, w) ∷ insert k v m

  -- `delete(m, k)`
  unfoldable pub erase : Text → Map V → Map V
  erase k [] = []
  erase k ((j, v) ∷ m) = let rest = erase k m in if text_eq j k then rest else (j, v) ∷ rest

  -- `_, ok := m[k]`
  abbrev pub is_some : Option V → Bool
  is_some none = false
  is_some (some v) = true

  abbrev pub has : Text → Map V → Bool
  has k m = is_some (lookup k m)

  abbrev pub or_else : Option V → V → V
  or_else none d = d
  or_else (some v) d = v

  pub lookup-insert :
      (k j : Text) (v : V) (m : Map V)
      → lookup j (insert k v m) ≡ (if text_eq k j then some v else lookup j m)
  unfolding lookup insert
  lookup-insert k j v [] = refl
  lookup-insert k j v ((i, w) ∷ m) =
      ground (arith, text_eq_iff k j, text_eq_iff i k, text_eq_iff i j, lookup-insert k j v m)

  pub lookup-insert_self : (k : Text) (v : V) (m : Map V) → lookup k (insert k v m) ≡ some v
  lookup-insert_self k v m = simp (lookup-insert, text_eq_refl)

  pub lookup-erase :
      (k j : Text) (m : Map V) → lookup j (erase k m) ≡ (if text_eq k j then none else lookup j m)
  unfolding lookup erase
  lookup-erase k j [] = ground arith
  lookup-erase k j ((i, w) ∷ m) =
      ground (arith, text_eq_iff k j, text_eq_iff i k, text_eq_iff i j, lookup-erase k j m)

  -- The keys, in the order of a range over the map.
  unfoldable pub keys : Map V → List Text
  keys [] = []
  keys ((j, v) ∷ m) = j ∷ keys m

  pub has-contains : (k : Text) (m : Map V) → has k m ≡ contains k (keys m)
  unfolding lookup keys
  has-contains k [] = refl
  has-contains k ((j, v) ∷ m) = ground (arith, text_eq_iff k j, text_eq_iff j k, has-contains k m)

  pub length-keys : (m : Map V) → length (keys m) ≡ length m
  unfolding keys
  length-keys [] = refl
  length-keys ((j, v) ∷ m) = omega (arith, length-keys m)

  pub lookup_of_not_has : (k : Text) (m : Map V) → has k m ≡ false → lookup k m ≡ none
  lookup_of_not_has k m h = ground arith

  -- What holds of every entry holds of what is looked up.
  pub All-lookup {κ} :
      (P : Text → V → Type κ) (k : Text) (v : V) (m : Map V)
      → All (λ (e : Text × V). P e.0 e.1) m
      → lookup k m ≡ some v
      → P k v
  unfolding lookup
  All-lookup P k v [] all h = cc
  All-lookup P k v ((j, w) ∷ m) all h = elim (Bool-cases (text_eq j k)) [
    | inl y ↦
        subst (λ t. P t v) ((text_eq_iff j k).0 y) (subst (λ t. P j t) (some_inj (rw y at h)) all.0)
    | inr n ↦ All-lookup P k v m all.1 (rw n at h)
  ]

  -- Writing what is there changes nothing.
  pub insert_same : (k : Text) (v : V) (m : Map V) → lookup k m ≡ some v → insert k v m ≡ m
  unfolding lookup insert
  insert_same k v [] h = cc
  insert_same k v ((j, w) ∷ m) h = ground (arith, text_eq_iff j k, insert_same k v m)
