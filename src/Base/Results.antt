-- ===== src/Base/Results.antt =====
-- Fallible code: a value or an error, and loops whose body may return an error.
use mathlib.Core.Path.{◌≡◌, refl}
use mathlib.Core.List.{List, [], ◌∷◌, ◌++◌}
use microbe.Base.Lists.{All}
use mathlib.Core.Logic.{◌⊎◌, inl, inr}
use mathlib.Core.Bool.{Bool, true, false}

-- A value, or the error that the code returns in its place.
pub data Result {ε ℓ} (E : Type ε) (A : Type ℓ) : Type (ε ⊔ ℓ) where
  err : E → Result E A
  ok : A → Result E A

-- `if bad { return e }`
abbrev pub reject_if {ε} : {E : Type ε} → Bool → E → Result E (Unit {0})
reject_if bad e = elim bad [ false ↦ ok tt | true ↦ err e ]

infixl 5 ◌>>=◌
abbrev pub ◌>>=◌ {ε ℓ κ} :
    {E : Type ε} {A : Type ℓ} {B : Type κ} → Result E A → (A → Result E B) → Result E B
err failure >>= next = err failure
ok value >>= next = next value

-- An inversion: a chain that succeeded did so in both of its steps.
pub >>=-eq-ok {ε ℓ κ} :
    {E : Type ε} {A : Type ℓ} {B : Type κ} (step : Result E A) (next : A → Result E B) {last : B}
    → (step >>= next) ≡ ok last
    → (value : A) × (step ≡ ok value) × (next value ≡ ok last)
>>=-eq-ok (err failure) next done = cc
>>=-eq-ok (ok value) next done = (value, refl, done)

infixl 5 ◌>>◌
abbrev pub ◌>>◌ {ε κ} : {E : Type ε} {B : Type κ} → Result E (Unit {0}) → Result E B → Result E B
check >> next = check >>= (λ passed. next)

-- `for _, x := range xs { s = body(s, x) }`, where the body may return an error.
module _ {E S A : Type 0} where
  unfoldable pub fold_result : (S → A → Result E S) → S → List A → Result E S
  fold_result f s [] = ok s
  fold_result f s (x ∷ xs) = f s x >>= λ s'. fold_result f s' xs

-- A loop that keeps no state.
unfoldable pub each_result :
    {E A : Type 0} → (A → Result E (Unit {0})) → List A → Result E (Unit {0})
each_result f [] = ok tt
each_result f (x ∷ xs) = f x >> each_result f xs

-- To split on a computed result and keep the equation.
pub Result-cases {ℓ κ} :
    {E : Type ℓ} {A : Type κ} (r : Result E A) → ((a : A) × (r ≡ ok a)) ⊎ ((e : E) × (r ≡ err e))
Result-cases (ok a) = inl (a, refl)
Result-cases (err e) = inr (e, refl)

pub ok_inj {ℓ κ} : {E : Type ℓ} {A : Type κ} {a b : A} → ◌≡◌ {A = Result E A} (ok a) (ok b) → a ≡ b
ok_inj e = cc e

-- A loop over two lists in turn.
pub fold_result-append :
    {E S A : Type 0} (f : S → A → Result E S) (s : S) (xs ys : List A)
    → fold_result f s (xs ++ ys) ≡ (fold_result f s xs >>= λ s'. fold_result f s' ys)
unfolding fold_result
fold_result-append f s [] ys = refl
fold_result-append f s (x ∷ xs) ys = elim (Result-cases (f s x)) [
  | inl (s', e) ↦ rw e (fold_result-append f s' xs ys)
  | inr (x', e) ↦ rw e refl
]

-- A loop without a state passes exactly when each of its rounds does.
pub each_result-ok :
    {E A : Type 0} (f : A → Result E (Unit {0})) (xs : List A)
    → each_result f xs ≡ ok tt
    → All (λ x. f x ≡ ok tt) xs
unfolding each_result
each_result-ok f [] h = tt
each_result-ok f (x ∷ xs) h = elim (Result-cases (f x)) [
  | inl (u, e) ↦ (e, each_result-ok f xs (rw e at h))
  | inr (x', e) ↦ absurd (cc (e, h))
]
