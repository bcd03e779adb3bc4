-- ===== src/Base/Keeping.antt =====
-- Properties that actions keep, and that loops of actions establish.
use mathlib.Core.Path.{◌≡◌, refl, ◌∙◌, subst, ap}
use mathlib.Core.Bool.{Bool, true, false}
use mathlib.Core.List.{List, [], ◌∷◌}
use microbe.Base.Results.{Result, ok, err}
use microbe.Base.Tests.{if◌then◌else◌}
use microbe.Base.Lists.{All, All-of}
use microbe.Base.Actions.{Action, return, continue, and_then, each, and_then-eq-ok}

module _ {S E : Type 0} where
  -- Where the action succeeds, the property holds behind it if it held before.
  abbrev pub Preserves {ℓ} : {A : Type 0} → (S → Type ℓ) → Action S E A → Type ℓ
  Preserves {A} P m = (s t : S) (a : A) → P s → m s ≡ (ok a, t) → P t

  pub and_then-Preserves {ℓ} :
      {A B : Type 0} (P : S → Type ℓ) (m : Action S E A) (f : A → Action S E B)
      → Preserves P m
      → ((a : A) → Preserves P (f a))
      → Preserves P (and_then m f)
  and_then-Preserves P m f p q s t b h e =
      let (a, u, e1, e2) = and_then-eq-ok m f s e in q a u t b (p s u a h e1) e2

  pub same_state :
      {A : Type 0} {s t : S} {r r' : Result E A} → ◌≡◌ {A = Result E A × S} (r, s) (r', t) → s ≡ t
  same_state e = ap (λ x. x.1) e

  pub return-Preserves {ℓ} : {A : Type 0} (P : S → Type ℓ) (a : A) → Preserves P (return a)
  return-Preserves P a s t b h e = subst P (same_state e) h

  pub if-Preserves {ℓ} :
      {A : Type 0} (P : S → Type ℓ) (b : Bool) (m n : Action S E A)
      → Preserves P m
      → Preserves P n
      → Preserves P (if b then m else n)
  if-Preserves P true m n p q = p
  if-Preserves P false m n p q = q

  pub each-Preserves {ℓ} :
      {A : Type 0} (P : S → Type ℓ) (f : A → Action S E (Unit {0})) (xs : List A)
      → All (λ x. Preserves P (f x)) xs
      → Preserves P (each f xs)
  unfolding each
  each-Preserves P f [] p = return-Preserves P tt
  each-Preserves P f (x ∷ xs) p =
      and_then-Preserves P (f x) (λ _. each f xs) p.0 (λ _. each-Preserves P f xs p.1)

  -- A loop whose rounds establish the property of their element, and keep that of the others.
  pub each_establishes {ℓ κ} :
      {A : Type 0} (I : S → Type ℓ) (Q : A → S → Type κ) (f : A → Action S E (Unit {0}))
      (xs : List A)
      → ((x : A) → Preserves I (f x))
      → ((x y : A) → Preserves (Q y) (f x))
      → ((x : A) (s t : S) (a : Unit {0}) → I s → f x s ≡ (ok a, t) → Q x t)
      → (s t : S) (a : Unit {0}) → I s
      → each f xs s ≡ (ok a, t)
      → All (λ x. Q x t) xs
  unfolding each
  each_establishes I Q f [] keeps others own s t a h e = tt
  each_establishes I Q f (x ∷ xs) keeps others own s t a h e =
      let (b, u, e1, e2) = and_then-eq-ok (f x) (λ _. each f xs) s e in
      (
        each-Preserves (Q x) f xs (All-of xs (λ y. others y x)) u t a (own x s u b h e1) e2,
        each_establishes I Q f xs keeps others own u t a (keeps x s u b h e1) e2,
      )

-- A part of the state that an action leaves as it is, whether it succeeds or not.
module _ {S E T : Type 0} (part : S → T) where
  abbrev pub Keeps : {A : Type 0} → Action S E A → Type 0
  Keeps m = (s : S) → part (m s).1 ≡ part s

  pub continue-Keeps :
      {A B : Type 0} (r : Result E A × S) (f : A → Action S E B)
      → ((a : A) → Keeps (f a))
      → part (continue r f).1 ≡ part r.1
  unfolding continue
  continue-Keeps (ok a, s) f k = k a s
  continue-Keeps (err e, s) f k = refl

  pub and_then-Keeps :
      {A B : Type 0} (m : Action S E A) (f : A → Action S E B)
      → Keeps m
      → ((a : A) → Keeps (f a))
      → Keeps (and_then m f)
  unfolding and_then
  and_then-Keeps m f k l s = continue-Keeps (m s) f l ∙ k s

  pub if-Keeps :
      {A : Type 0} (b : Bool) (m n : Action S E A) → Keeps m → Keeps n → Keeps (if b then m else n)
  if-Keeps true m n p q = p
  if-Keeps false m n p q = q

  pub each-Keeps :
      {A : Type 0} (f : A → Action S E (Unit {0})) (xs : List A)
      → ((x : A) → Keeps (f x))
      → Keeps (each f xs)
  unfolding each
  each-Keeps f [] k s = refl
  each-Keeps f (x ∷ xs) k s = and_then-Keeps (f x) (λ _. each f xs) (k x) (λ _. each-Keeps f xs k) s
