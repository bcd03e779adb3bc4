-- ===== src/Commands/Resolved.antt =====
-- `resolvePlan` of internal/cmd/lifecycle.go: a stack's addresses are permanent.
use microbe.Base.{
  ℕ, ◌≡◌, refl, sym, ap, ◌∙◌, false, Bool-cases, inl, inr, ◌==◌, ℤ, Option, List, [], ◌∷◌, ◌++◌,
  Text, length, Result, ok, err, ok_inj, return, and_then, and_then-eq-ok, continue, same_state,
}
use microbe.Config.Schema.{Compose}
use microbe.Hostnet.Prefix.{AddrError}
use microbe.Hostnet.Plan.{Lock, NetworkPlan, Source, plan, parse_lock_prefix}
use microbe.Hostnet.Permanent.{plan_inv, plan_again}
use microbe.Commands.World.{
  load_lock, save_lock, World, Outside, answered, ask, lift_addr, with_prefix, save_lock_file,
  resolve_plan,
}

lift_addr-eq-ok :
    {A : Type 0} (r : Result AddrError A) (w w' : World) (a : A)
    → lift_addr r w ≡ (ok a, w')
    → (r ≡ ok a) × (w ≡ w')
unfolding lift_addr
lift_addr-eq-ok (ok b) w w' a h = (ap (λ x. ok x) (ok_inj (ap (λ x. x.0) h)), same_state h)
lift_addr-eq-ok (err e) w w' a h = absurd (cc h)

-- A plan needs a prefix.
plan-prefix :
    (source : Source) (cfg : Compose) (lock lock' : Lock) (p : NetworkPlan)
    → plan source cfg lock ≡ ok (p, lock')
    → (length lock'.prefix == 0) ≡ false
unfolding parse_lock_prefix
plan-prefix source cfg lock lock' p h =
    let (prefix, t, e, f, q, q') = plan_inv source cfg lock lock' p h in
    rw q' (elim (Bool-cases (length lock.prefix == 0)) [
      | inl z ↦ absurd (cc (rw (z, parse_lock_prefix) at e))
      | inr z ↦ z
    ])

module _ (out : Outside) (source : Source) (cfg : Compose) where
  resolve_inv :
      (p : NetworkPlan) (prefix : Text) (w w' : World)
      → resolve_plan out source cfg w ≡ (ok (p, prefix), w')
      → (lock : Lock) × (plan source cfg lock ≡ ok (p, w'.lock)) × (prefix ≡ w'.lock.prefix)
  unfolding resolve_plan save_lock_file
  resolve_inv p prefix w w' h =
      let (a, u, e1, f1) =
        and_then-eq-ok (ask out load_lock)
          (λ _ v.
            and_then (with_prefix out v.lock)
              (λ lock. and_then (lift_addr (plan source cfg lock)) λ planned.
                and_then (save_lock_file out planned.1) λ _. return (planned.0, planned.1.prefix))
              v)
          w h in
      let (lock, u1, e2, f2) =
        and_then-eq-ok (with_prefix out u.lock)
          (λ lock. and_then (lift_addr (plan source cfg lock)) λ planned.
            and_then (save_lock_file out planned.1) λ _. return (planned.0, planned.1.prefix))
          u f1 in
      let (planned, u2, e3, f3) =
        and_then-eq-ok (lift_addr (plan source cfg lock))
          (λ planned.
            and_then (save_lock_file out planned.1) λ _. return (planned.0, planned.1.prefix))
          u1 f2 in
      let (n, u3, e4, f4) =
        and_then-eq-ok (save_lock_file out planned.1) (λ _. return (planned.0, planned.1.prefix)) u2
          f3 in
      let (m, u4, e5, f5) =
        and_then-eq-ok (ask out save_lock) (λ k v. (ok k, record v { lock = planned.1 })) u2 e4 in
      let result : (planned.0, planned.1.prefix) ≡ (p, prefix) = ok_inj (ap (λ x. x.0) f4) in
      let stored : planned.1 ≡ w'.lock =
        ap (λ (v : World). v.lock) (same_state f5) ∙ ap (λ (v : World). v.lock) (same_state f4) in
      (
        lock,
        (lift_addr-eq-ok (plan source cfg lock) u1 u2 planned e3).0
            ∙ ap (λ x. ok x) (λ i. ((result i).0, stored i)),
        sym (ap (λ x. x.1) result) ∙ ap (λ (l : Lock). l.prefix) stored,
      )

  save_known :
      {A : Type 0} (x : A) (lock : Lock) (v : World)
      → ((z : World) → (n : ℤ) × (out.answer z save_lock ≡ ok n))
      → ((and_then (save_lock_file out lock) (λ _. return x) v).0 ≡ ok x)
        × ((and_then (save_lock_file out lock) (λ _. return x) v).1.lock ≡ lock)
  unfolding save_lock_file ask and_then
  save_known x lock v saves = let (n, e) = saves v in rw (e, answered, continue) (refl, refl)

  -- A plan that needs nothing new.
  resolve_known :
      (p : NetworkPlan) (u : World)
      → ((v : World) → (n : ℤ) × (out.answer v load_lock ≡ ok n))
      → ((v : World) → (n : ℤ) × (out.answer v save_lock ≡ ok n))
      → (length u.lock.prefix == 0) ≡ false
      → plan source cfg u.lock ≡ ok (p, u.lock)
      → ((resolve_plan out source cfg u).0 ≡ ok (p, u.lock.prefix))
        × ((resolve_plan out source cfg u).1.lock ≡ u.lock)
  unfolding resolve_plan save_lock_file ask and_then with_prefix lift_addr
  resolve_known p u loads saves given known =
      let (n, e) = loads u in
      rw (e, answered, continue)
        (rw given (
          rw (continue, known, lift_addr)
            (save_known (p, u.lock.prefix) u.lock (record u { calls = u.calls ++ load_lock ∷ [] })
              saves)))

-- Once resolvePlan has returned a plan, a later call on the lock that it saved returns the same
-- plan and the same prefix and leaves the lock as it is, where the lock can be read and written,
-- whatever the daemon would answer for a prefix and whatever randomness there is.
pub resolve_plan_again :
    (out later : Outside) (source : Source) (cfg : Compose) (p : NetworkPlan) (prefix : Text)
    (w w' u : World) (rand : Text → ℕ → Option (List ℕ))
    → resolve_plan out source cfg w ≡ (ok (p, prefix), w')
    → u.lock ≡ w'.lock
    → ((v : World) → (n : ℤ) × (later.answer v load_lock ≡ ok n))
    → ((v : World) → (n : ℤ) × (later.answer v save_lock ≡ ok n))
    → ((resolve_plan later (record source { rand = rand }) cfg u).0 ≡ ok (p, prefix))
      × ((resolve_plan later (record source { rand = rand }) cfg u).1.lock ≡ u.lock)
resolve_plan_again out later source cfg p prefix w w' u rand h same loads saves =
    let (lock, planned, given) = resolve_inv out source cfg p prefix w w' h in
    let again = plan_again source cfg lock w'.lock p planned rand in
    let (x, y) =
      resolve_known later (record source { rand = rand }) cfg p u loads saves
        (rw same (plan-prefix source cfg lock w'.lock p planned)) (rw same again) in
    (x ∙ rw (same, given) refl, y)
