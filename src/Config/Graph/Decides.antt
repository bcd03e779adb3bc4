-- ===== src/Config/Graph/Decides.antt =====
-- `detectCycle` decides whether some service depends on itself through a chain of dependencies.
use mathlib.Core.WellFounded.{Acc}
use microbe.Base.{
  ℕ, zero, suc, ◌≤◌, ◌≡◌, ◌≢◌, refl, ◌⊎◌, inl, inr, true, false, Bool-cases, List, [], ◌∷◌, Text,
  text_eq, text_eq_iff, length, All, contains, Map, lookup, insert, keys, has-contains, length-keys,
  lookup_of_not_has, ◌∙◌, Result, ok, err, ◌>>=◌, >>=-eq-ok, Result-cases, ok_inj, subst, arith,
}
use microbe.Config.Schema.{Service}
use microbe.Config.Errors.{ConfigError, depends_on_cycle}
use microbe.Config.Graph.{
  Color, white, grey, black, Colors, color_of, deps_of, visit_deps, visit, visit_root, visit_roots,
  detect_cycle, DependsOn, Chain,
}
use microbe.Config.Graph.Visit.{
  color_of-insert, black_of_All, Done, Grows, Grows-refl, Grows-trans, visit-Visits,
}
use microbe.Config.Graph.Cycles.{
  no-Chain, white_count, white_count-le, white_count-lt, HasCycle, AllDeclared, Fails,
  visit_deps-Fails,
}

module _ (services : Map Service) where
  deps_self :
      (deps ds : List Text)
      → ((d : Text) → contains d ds ≡ true → contains d deps ≡ true)
      → All (λ d. contains d deps ≡ true) ds
  deps_self deps [] h = tt
  deps_self deps (d ∷ ds) h =
      (h d (ground (arith, text_eq_iff d d)), deps_self deps ds (λ x q. h x (ground (arith, q))))

  bind_err :
      (r : Result ConfigError Colors) (e : ConfigError) (f : Colors → Colors)
      → (r >>= λ c. ok (f c)) ≡ err e
      → r ≡ err e
  bind_err (ok c) e f h = cc
  bind_err (err x) e f h = h

  visit-Fails : AllDeclared services → (fuel : ℕ) → Fails services (visit services fuel) fuel
  unfolding visit
  visit-Fails declared zero name path a e w mem le greys h =
      absurd (omega (arith, white_count-lt services a name (keys services) w mem))
  visit-Fails declared (suc fuel) name path a e w mem le greys h =
      visit_deps-Fails services declared (visit services fuel) (visit-Visits services fuel) fuel
        (visit-Fails declared fuel) name path (deps_of services name) (insert name grey a) e
        (deps_self (deps_of services name) (deps_of services name) (λ d q. q))
        (omega (arith, white_count-lt services a name (keys services) w mem))
        (λ g r. elim (Bool-cases (text_eq name g)) [
          | inl y ↦ inl (ground (arith, text_eq_iff name g))
          | inr y ↦ inr (greys g (ground (arith, y, color_of-insert name g grey a)))
        ])
        (bind_err
          (visit_deps (visit services fuel) name path (deps_of services name) (insert name grey a))
          e (λ c. insert name black c) h)

  -- Between two roots no service is grey.
  abbrev NoGrey : Colors → Type 0
  NoGrey a = (n : Text) → color_of a n ≢ grey

  visit_root-Grows :
      (fuel : ℕ) (a b : Colors) (name : Text) (c : Color)
      → NoGrey a
      → color_of a name ≡ c
      → visit_root services fuel a name c ≡ ok b
      → Grows services a b × (color_of b name ≡ black)
  unfolding visit_root
  visit_root-Grows fuel a b name white n q h = visit-Visits services fuel name [] a b q h
  visit_root-Grows fuel a b name grey n q h = absurd (n name q)
  visit_root-Grows fuel a b name black n q h =
      let e : a ≡ b = ok_inj h in
      (
        subst (λ t. Grows services a t) e (Grows-refl services a),
        subst (λ t. color_of t name ≡ black) e q,
      )

  visit_roots-Grows :
      (fuel : ℕ) (a b : Colors) (names : List Text)
      → NoGrey a
      → visit_roots services fuel a names ≡ ok b
      → Grows services a b × All (λ n. color_of b n ≡ black) names
  unfolding visit_roots
  visit_roots-Grows fuel a b [] n h =
      (subst (λ t. Grows services a t) (ok_inj h) (Grows-refl services a), tt)
  visit_roots-Grows fuel a b (name ∷ names) n h =
      let (m, e, g) = >>=-eq-ok (visit_root services fuel a name (color_of a name)) _ h in
      let (first, done) = visit_root-Grows fuel a m name (color_of a name) n refl e in
      let (rest, all) = visit_roots-Grows fuel m b names (λ x q. n x (first.greys x q)) g in
      (Grows-trans services first rest, (rest.blacks name done, all))

  visit_root-Fails :
      (declared : AllDeclared services) (fuel : ℕ) (a : Colors) (name : Text) (c : Color)
      (e : ConfigError)
      → NoGrey a
      → color_of a name ≡ c
      → contains name (keys services) ≡ true
      → white_count services a (keys services) ≤ fuel
      → visit_root services fuel a name c ≡ err e
      → HasCycle services e
  unfolding visit_root
  visit_root-Fails declared fuel a name white e n q mem le h =
      visit-Fails declared fuel name [] a e q mem le (λ g r. absurd (n g r)) h
  visit_root-Fails declared fuel a name grey e n q mem le h = cc
  visit_root-Fails declared fuel a name black e n q mem le h = cc

  visit_roots-Fails :
      (declared : AllDeclared services) (fuel : ℕ) (a : Colors) (names : List Text)
      (e : ConfigError)
      → NoGrey a
      → All (λ n. contains n (keys services) ≡ true) names
      → white_count services a (keys services) ≤ fuel
      → visit_roots services fuel a names ≡ err e
      → HasCycle services e
  unfolding visit_roots
  visit_roots-Fails declared fuel a [] e n mem le h = cc
  visit_roots-Fails declared fuel a (name ∷ names) e n mem le h =
      elim (Result-cases (visit_root services fuel a name (color_of a name))) [
        | inl (m, q) ↦
            let grown : Grows services a m =
              (visit_root-Grows fuel a m name (color_of a name) n refl q).0 in
            visit_roots-Fails declared fuel m names e (λ x r. n x (grown.greys x r)) mem.1
              (omega (arith, white_count-le services a m (keys services) grown.whites)) (rw q at h)
        | inr (x, q) ↦
            visit_root-Fails declared fuel a name (color_of a name) e n refl mem.0 le
              (rw q (rw q at h))
      ]

  white_count-bound : (a : Colors) (ks : List Text) → white_count services a ks ≤ length ks
  unfolding white_count
  white_count-bound a [] = omega arith
  white_count-bound a (k ∷ ks) = ground (arith, white_count-bound a ks)

  deps_of_undeclared : (n : Text) → contains n (keys services) ≡ false → deps_of services n ≡ []
  unfolding deps_of
  deps_of_undeclared n h = rw (lookup_of_not_has n services (has-contains n services ∙ h)) refl

  undeclared :
      (m n : Text) → contains n (keys services) ≡ false → contains m (deps_of services n) ≡ false
  undeclared m n h = rw (deps_of_undeclared n h) refl

  acc_of_black :
      (b : Colors)
      → Done services b
      → All (λ n. color_of b n ≡ black) (keys services)
      → (n : Text) → Acc (DependsOn services) n
  acc_of_black b done all n = elim (Bool-cases (contains n (keys services))) [
    | inl y ↦ done n (black_of_All services b n (keys services) all y)
    | inr absent ↦ Acc.intro n (λ m h. absurd (cc (undeclared m n absent, h)))
  ]

  detect_cycle_of :
      (r : Result ConfigError Colors)
      → visit_roots services (length services) [] (keys services) ≡ r
      → detect_cycle services ≡ (r >>= λ colors. ok tt)
  unfolding detect_cycle
  detect_cycle_of r q = rw q refl

  not_black_at_first : (n : Text) → color_of [] n ≢ black
  unfolding lookup
  not_black_at_first n h = cc h

  NoGrey-at_first : NoGrey []
  unfolding lookup
  NoGrey-at_first n h = cc h

  keys_self : All (λ n. contains n (keys services) ≡ true) (keys services)
  keys_self = deps_self (keys services) (keys services) (λ d q. q)

  -- Where every dependency is a declared service, detectCycle returns nil exactly when no service
  -- depends on itself through a chain of dependencies, and else it reports a cycle; its fuel never
  -- runs out.
  pub detect_cycle_decides :
      AllDeclared services
      → ((detect_cycle services ≡ ok tt) × ((n : Text) → ¬ (Chain services n n)))
        ⊎ ((path : List Text) × (n : Text) × (detect_cycle services ≡ err (depends_on_cycle path))
            × Chain services n n)
  detect_cycle_decides declared =
      elim (Result-cases (visit_roots services (length services) [] (keys services))) [
        | inl (b, q) ↦
            let (grown, all) =
              visit_roots-Grows (length services) [] b (keys services) NoGrey-at_first q in
            inl (
              detect_cycle_of (ok b) q,
              λ n.
                  no-Chain services n
                    (acc_of_black b (grown.done (λ x h. absurd (not_black_at_first x h))) all n),
            )
        | inr (e, q) ↦
            let ((path, p), (n, c)) =
              visit_roots-Fails declared (length services) [] (keys services) e NoGrey-at_first
                keys_self
                (omega (arith, white_count-bound [] (keys services), length-keys services)) q in
            inr (path, n, detect_cycle_of (err e) q ∙ cc p, c)
      ]
