-- ===== src/Lifecycle/Steps.antt =====
-- What a visit of `startOrder` does to the order: dependencies stand first in it.
use microbe.Base.{
  ℕ, zero, suc, ◌≡◌, refl, sym, subst, ◌∙◌, true, false, Bool-cases, inl, inr, List, [], ◌∷◌, ◌++◌,
  Text, text_eq, text_eq_iff, text_eq_refl, contains, contains-append, Map, Result, ok, >>=-eq-ok,
  ok_inj, arith,
}
use microbe.Config.Schema.{Service}
use microbe.Config.Graph.{deps_of}
use microbe.Lifecycle.Order.{
  Walk, OrderError, remove_name, finish, visit_selected, visit_service, visit_all,
}

module _ (services : Map Service) (selected : List Text) where
  -- The selected dependencies of the name are among these.
  abbrev pub DepsAmong : List Text → Text → Type 0
  DepsAmong before name =
      (d : Text)
      → contains d (deps_of services name) ≡ true
      → contains d selected ≡ true
      → contains d before ≡ true

  -- Each name of the list stands behind its selected dependencies.
  abbrev pub DepsFirst : List Text → List Text → Type 0
  DepsFirst before [] = Unit
  DepsFirst before (name ∷ rest) = DepsAmong before name × DepsFirst (before ++ name ∷ []) rest

  first_snoc :
      (before xs : List Text) (name : Text)
      → DepsFirst before xs
      → DepsAmong (before ++ xs) name
      → DepsFirst before (xs ++ name ∷ [])
  first_snoc before [] name h k =
      ((λ d p q. ground (arith, contains-append d before [], k d p q)), tt)
  first_snoc before (x ∷ xs) name h k = (
    h.0,
    first_snoc (before ++ x ∷ []) xs name h.1 (λ d p q. ground (
      arith,
      contains-append d before (x ∷ xs),
      contains-append d (before ++ x ∷ []) xs,
      contains-append d before (x ∷ []),
      k d p q,
    )),
  )

  -- What is visited is in the order, and the order is right so far.
  pub record Good (w : Walk) : Type 0 where
    pub ordered : DepsFirst [] w.order
    pub same : (n : Text) → contains n w.visited ≡ contains n w.order

  -- What a visit that succeeded did.
  pub record Step (a b : Walk) : Type 0 where
    pub good : Good b
    pub grows : (n : Text) → contains n a.visited ≡ true → contains n b.visited ≡ true
    pub back : b.visiting ≡ a.visiting

  abbrev pub Visits : (Text → Walk → Result OrderError Walk) → Type 0
  Visits visit =
      (name : Text) (a b : Walk)
      → Good a
      → visit name a ≡ ok b
      → Step a b × (contains name b.visited ≡ true)

  pub stay : (a : Walk) → Good a → Step a a
  stay a g = record { good = g; grows = λ n h. h; back = refl }

  then-Step : (a b c : Walk) → Step a b → Step b c → Step a c
  then-Step a b c s t = record {
    good = t.good;
    grows = λ n h. t.grows n (s.grows n h);
    back = t.back ∙ s.back;
  }

  visit_selected-Step :
      (visit : Text → Walk → Result OrderError Walk)
      → Visits visit
      → (deps : List Text) (a b : Walk) → Good a
      → visit_selected services selected visit deps a ≡ ok b
      → Step a b
        × ((d : Text)
            → contains d deps ≡ true
            → contains d selected ≡ true
            → contains d b.visited ≡ true)
  unfolding visit_selected
  visit_selected-Step visit v [] a b g h =
      (subst (Step a) (ok_inj h) (stay a g), λ d p q. absurd (cc p))
  visit_selected-Step visit v (dep ∷ deps) a b g h = elim (Bool-cases (contains dep selected)) [
    | inl y ↦
        let (m, e, f) =
          >>=-eq-ok (visit dep a) (λ w'. visit_selected services selected visit deps w')
            (rw y at h) in
        let (s, has_dep) = v dep a m g e in
        let (t, rest) = visit_selected-Step visit v deps m b s.good f in
        (
          then-Step a m b s t,
          λ d p q. elim (Bool-cases (text_eq d dep)) [
            | inl z ↦
                subst (λ x. contains x b.visited ≡ true) (sym ((text_eq_iff d dep).0 z))
                  (t.grows dep has_dep)
            | inr z ↦ rest d (ground (arith, p, z)) q
          ],
        )
    | inr n ↦
        let (t, rest) = visit_selected-Step visit v deps a b g (rw n at h) in
        (
          t,
          λ d p q. elim (Bool-cases (text_eq d dep)) [
            | inl z ↦ absurd (cc (q, n, (text_eq_iff d dep).0 z))
            | inr z ↦ rest d (ground (arith, p, z)) q
          ],
        )
  ]

  remove_absent :
      (name : Text) (xs : List Text) → contains name xs ≡ false → remove_name name xs ≡ xs
  unfolding remove_name
  remove_absent name [] h = refl
  remove_absent name (x ∷ xs) h = ground (arith, remove_absent name xs, h)

  finish-Step :
      (name : Text) (a m : Walk)
      → contains name a.visiting ≡ false
      → Step (record a { visiting = name ∷ a.visiting }) m
      → ((d : Text)
          → contains d (deps_of services name) ≡ true
          → contains d selected ≡ true
          → contains d m.visited ≡ true)
      → Step a (finish name m)
  unfolding remove_name
  finish-Step name a m absent s all = record {
    good = record {
      ordered =
          first_snoc [] m.order name s.good.ordered (λ d p q. sym (s.good.same d) ∙ all d p q);
      same = λ n. ground (arith, s.good.same n, contains-append n m.order (name ∷ []));
    };
    grows = λ n h. ground (arith, s.grows n h);
    back = rw s.back (rw (text_eq_refl name) (remove_absent name a.visiting absent));
  }

  pub visit_service-Step : (fuel : ℕ) → Visits (visit_service services selected fuel)
  unfolding visit_service
  visit_service-Step zero name a b g h = absurd (cc h)
  visit_service-Step (suc fuel) name a b g h = elim (Bool-cases (contains name a.visited)) [
    | inl y ↦
        let e : a ≡ b = ok_inj (rw y at h) in
        (subst (Step a) e (stay a g), subst (λ (w : Walk). contains name w.visited ≡ true) e y)
    | inr n ↦ elim (Bool-cases (contains name a.visiting)) [
      | inl y ↦ absurd (cc (rw y at (rw n at h)))
      | inr k ↦
          let (m, e, f) = >>=-eq-ok _ (λ w'. ok (finish name w')) (rw k at (rw n at h)) in
          let (s, all) =
            visit_selected-Step (visit_service services selected fuel) (visit_service-Step fuel)
              (deps_of services name) (record a { visiting = name ∷ a.visiting }) m
              (record { ordered = g.ordered; same = g.same }) e in
          (
            subst (Step a) (ok_inj f) (finish-Step name a m k s all),
            subst (λ (w : Walk). contains name w.visited ≡ true) (ok_inj f)
                (ground (arith, text_eq_refl name)),
          )
    ]
  ]

  pub visit_all-Step :
      (fuel : ℕ) (names : List Text) (a b : Walk)
      → Good a
      → visit_all services selected fuel names a ≡ ok b
      → Step a b × ((n : Text) → contains n names ≡ true → contains n b.visited ≡ true)
  unfolding visit_all
  visit_all-Step fuel [] a b g h = (subst (Step a) (ok_inj h) (stay a g), λ n p. absurd (cc p))
  visit_all-Step fuel (name ∷ names) a b g h =
      let (m, e, f) = >>=-eq-ok (visit_service services selected fuel name a) _ h in
      let (s, has_name) = visit_service-Step fuel name a m g e in
      let (t, rest) = visit_all-Step fuel names m b s.good f in
      (
        then-Step a m b s t,
        λ n p. elim (Bool-cases (text_eq n name)) [
          | inl z ↦
              subst (λ x. contains x b.visited ≡ true) (sym ((text_eq_iff n name).0 z))
                (t.grows name has_name)
          | inr z ↦ rest n (ground (arith, p, z))
        ],
      )
