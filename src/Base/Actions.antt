-- ===== src/Base/Actions.antt =====
-- Go code that changes a state and may return an error: the state stays changed when it does.
use mathlib.Core.Path.{◌≡◌, refl}
use mathlib.Core.List.{List, [], ◌∷◌}
use microbe.Base.Results.{Result, ok, err}

abbrev pub Action : Type 0 → Type 0 → Type 0 → Type 0
Action S E A = S → Result E A × S

module _ {S E : Type 0} where
  abbrev pub return : {A : Type 0} → A → Action S E A
  return a s = (ok a, s)

  abbrev pub fail : {A : Type 0} → E → Action S E A
  fail e s = (err e, s)

  unfoldable pub continue : {A B : Type 0} → Result E A × S → (A → Action S E B) → Result E B × S
  continue (ok a, s) f = f a s
  continue (err e, s) f = (err e, s)

  -- `m, err := ...; if err != nil { return err }`
  unfoldable pub and_then : {A B : Type 0} → Action S E A → (A → Action S E B) → Action S E B
  unfolding continue
  and_then m f s = continue (m s) f

  -- `for _, x := range xs { ... }`
  unfoldable pub each : {A : Type 0} → (A → Action S E (Unit {0})) → List A → Action S E (Unit {0})
  unfolding and_then
  each f [] = return tt
  each f (x ∷ xs) = and_then (f x) (λ _. each f xs)

  -- An error that is dropped, as in `_ = f()`.
  unfoldable pub ignoring_error : {A : Type 0} → Action S E A → Action S E (Unit {0})
  ignoring_error m s = (ok tt, (m s).1)

  pub continue-eq-ok :
      {A B : Type 0} (r : Result E A × S) (f : A → Action S E B) {b : B} {t : S}
      → continue r f ≡ (ok b, t)
      → (a : A) × (s : S) × (r ≡ (ok a, s)) × (f a s ≡ (ok b, t))
  unfolding continue
  continue-eq-ok (ok a, s) f h = (a, s, refl, h)
  continue-eq-ok (err e, s) f h = absurd (cc h)

  -- A chain that succeeded, in its two steps.
  pub and_then-eq-ok :
      {A B : Type 0} (m : Action S E A) (f : A → Action S E B) (s : S) {b : B} {t : S}
      → and_then m f s ≡ (ok b, t)
      → (a : A) × (u : S) × (m s ≡ (ok a, u)) × (f a u ≡ (ok b, t))
  unfolding and_then
  and_then-eq-ok m f s h = continue-eq-ok (m s) f h
