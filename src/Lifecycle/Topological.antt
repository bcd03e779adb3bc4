-- ===== src/Lifecycle/Topological.antt =====
-- The order of `startOrder` puts dependencies first, and its recursion ends.
use microbe.Base.{
  ℕ, zero, suc, ◌<◌, ◌≤◌, ◌≡◌, ◌≢◌, refl, sym, subst, ◌∙◌, true, false, Bool-cases, ◌⊎◌, inl, inr,
  List, [], ◌∷◌, Text, text_eq_iff, text_eq_refl, length, contains, All, Map, if◌then◌else◌, Result,
  ok, err, ◌>>=◌, Result-cases, arith,
}
use microbe.Config.Schema.{Service}
use microbe.Config.Graph.{deps_of}
use microbe.Lifecycle.Order.{
  Walk, OrderError, out_of_fuel, cycle_at, visit_selected, visit_service, visit_all, start_order,
}
use microbe.Lifecycle.Steps.{DepsFirst, Good, Visits, visit_service-Step, visit_all-Step}

module _ (services : Map Service) (selected : List Text) where
  -- How many of the names are not being visited.
  free : List Text → List Text → ℕ
  free v [] = 0
  free v (x ∷ xs) = let rest = free v xs in if contains x v then rest else suc rest

  free_le : (n : Text) (v xs : List Text) → free (n ∷ v) xs ≤ free v xs
  unfolding free
  free_le n v [] = omega arith
  free_le n v (x ∷ xs) = ground (arith, free_le n v xs)

  free_lt :
      (n : Text) (v xs : List Text)
      → contains n v ≡ false
      → contains n xs ≡ true
      → free (n ∷ v) xs < free v xs
  unfolding free
  free_lt n v [] h k = absurd (cc k)
  free_lt n v (x ∷ xs) h k =
      ground (arith, text_eq_iff n x, text_eq_iff x n, free_le n v xs, free_lt n v xs h, h, k)

  free_bound : (v xs : List Text) → free v xs ≤ length xs
  unfolding free
  free_bound v [] = omega arith
  free_bound v (x ∷ xs) = ground (arith, free_bound v xs)

  -- Visits that have fuel for what is free of these.
  Fueled : List Text → (Text → Walk → Result OrderError Walk) → Type 0
  Fueled v visit =
      (name : Text) (a : Walk)
      → Good services selected a
      → a.visiting ≡ v
      → contains name selected ≡ true
      → visit name a ≢ err out_of_fuel

  chain_fails :
      (r : Result OrderError Walk) (k : Walk → Result OrderError Walk)
      → r ≢ err out_of_fuel
      → ((b : Walk) → r ≡ ok b → k b ≢ err out_of_fuel)
      → (r >>= k) ≢ err out_of_fuel
  chain_fails (ok b) k n m h = m b refl h
  chain_fails (err e) k n m h = n h

  visit_selected-Fueled :
      (v : List Text) (visit : Text → Walk → Result OrderError Walk)
      → Visits services selected visit
      → Fueled v visit
      → (deps : List Text) (a : Walk) → Good services selected a
      → a.visiting ≡ v
      → visit_selected services selected visit deps a ≢ err out_of_fuel
  unfolding visit_selected Fueled
  visit_selected-Fueled v visit steps fueled [] a g q = λ h. absurd (cc h)
  visit_selected-Fueled v visit steps fueled (dep ∷ deps) a g q =
      elim (Bool-cases (contains dep selected)) [
        | inl y ↦ rw y (
            chain_fails (visit dep a) _ (fueled dep a g q y) (λ b e.
              let (s, _) = steps dep a b g e in
              visit_selected-Fueled v visit steps fueled deps b s.good (s.back ∙ q)))
        | inr n ↦ rw n (visit_selected-Fueled v visit steps fueled deps a g q)
      ]

  visit_service-Fueled :
      (fuel : ℕ) (v : List Text)
      → free v selected < fuel
      → Fueled v (visit_service services selected fuel)
  unfolding Fueled visit_service
  visit_service-Fueled zero v lt name a g q c = absurd (omega (arith, lt))
  visit_service-Fueled (suc fuel) v lt name a g q c = elim (Bool-cases (contains name a.visited)) [
    | inl y ↦ rw y (λ h. absurd (cc h))
    | inr n ↦ elim (Bool-cases (contains name a.visiting)) [
      | inl y ↦ rw n (rw y (λ h. absurd (cc h)))
      | inr k ↦
          let less : free (name ∷ a.visiting) selected < fuel = omega (
            arith,
            free_lt name a.visiting selected k c,
            subst (λ x. free x selected < suc fuel) (sym q) lt,
          ) in
          rw n (
            rw k (
              chain_fails _ _
                (visit_selected-Fueled (name ∷ a.visiting) (visit_service services selected fuel)
                  (visit_service-Step services selected fuel)
                  (visit_service-Fueled fuel (name ∷ a.visiting) less) (deps_of services name)
                  (record a { visiting = name ∷ a.visiting })
                  (record { ordered = g.ordered; same = g.same }) refl)
                (λ b e h. absurd (cc h))))
    ]
  ]

  visit_all_fueled :
      (fuel : ℕ)
      → length selected < fuel
      → (names : List Text) (a : Walk) → Good services selected a
      → a.visiting ≡ []
      → All (λ n. contains n selected ≡ true) names
      → visit_all services selected fuel names a ≢ err out_of_fuel
  unfolding visit_all Fueled
  visit_all_fueled fuel lt [] a g q all = λ h. absurd (cc h)
  visit_all_fueled fuel lt (name ∷ names) a g q all =
      chain_fails (visit_service services selected fuel name a) _
        (visit_service-Fueled fuel [] (omega (arith, free_bound [] selected, lt)) name a g q all.0)
        (λ b e.
          let (s, _) = visit_service-Step services selected fuel name a b g e in
          visit_all_fueled fuel lt names b s.good (s.back ∙ q) all.1)

  at_first : Good services selected (record { visiting = []; visited = []; order = [] })
  at_first = record { ordered = tt; same = λ n. refl }

  members :
      (xs ys : List Text)
      → ((n : Text) → contains n xs ≡ true → contains n ys ≡ true)
      → All (λ n. contains n ys ≡ true) xs
  members [] ys h = tt
  members (x ∷ xs) ys h =
      (h x (ground (arith, text_eq_refl x)), members xs ys (λ n k. h n (ground (arith, k))))

  start_order_of :
      (r : Result OrderError Walk)
      → visit_all services selected
          (suc (length selected))
          selected
          (record { visiting = []; visited = []; order = [] })
        ≡ r
      → start_order services selected ≡ (r >>= λ w. ok w.order)
  unfolding start_order
  start_order_of r e = rw e refl

  -- startOrder returns every selected service, each behind those of its dependencies that are
  -- selected, or it reports a cycle: its recursion ends on every document.
  pub start_order_topological :
      ((order : List Text) × (start_order services selected ≡ ok order)
        × DepsFirst services selected [] order
        × All (λ n. contains n order ≡ true) selected)
      ⊎ ((n : Text) × (start_order services selected ≡ err (cycle_at n)))
  start_order_topological =
      elim (Result-cases (
        visit_all services selected (suc (length selected)) selected
          (record { visiting = []; visited = []; order = [] }))) [
            | inl (w, e) ↦
                let (s, all) =
                  visit_all-Step services selected (suc (length selected)) selected _ w at_first
                    e in
                inl (
                  w.order,
                  start_order_of (ok w) e,
                  s.good.ordered,
                  members selected w.order (λ n h. sym (s.good.same n) ∙ all n h),
                )
            | inr (cycle_at n, e) ↦ inr (n, start_order_of (err (cycle_at n)) e)
            | inr (out_of_fuel, e) ↦ absurd (
                visit_all_fueled (suc (length selected)) (omega arith) selected
                  (record { visiting = []; visited = []; order = [] }) at_first refl
                  (members selected selected (λ n h. h)) e)
          ]
