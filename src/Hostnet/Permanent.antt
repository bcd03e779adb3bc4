-- ===== src/Hostnet/Permanent.antt =====
-- Addresses are permanent: every service gets one, the lock keeps it, and planning again with the
-- lock that a plan returned changes nothing and draws nothing.
use microbe.Base.{
  ℕ, ◌≡◌, refl, sym, ap, subst, inl, inr, true, Bool-cases, Option, some, List, [], ◌∷◌, Text,
  text_eq, text_eq_iff, Map, lookup, lookup-insert, keys, has, has-contains, ok, >>=-eq-ok, ok_inj,
  fold_result, sort_texts, contains, contains-sort_texts, ◌∙◌, arith,
}
use microbe.Config.Schema.{Service, Compose}
use microbe.Hostnet.Prefix.{Prefix}
use microbe.Hostnet.Plan.{
  Lock, NetworkPlan, Source, Allocation, allocate_addr, parse_lock_prefix, allocate_addrs,
  allocate_macs, plan,
}
use microbe.Hostnet.Stable.{Settled, Round, Round-of, Round-settles, Round-keeps, round_again}

module _ (services : Map Service) where
  Settled-once :
      (locked : Map Text) (s v w : Text)
      → Settled services locked s v
      → Settled services locked s w
      → v ≡ w
  Settled-once locked s v w h k = ground (arith, h.0, k.0)

  -- The addresses that were given are those of the lock.
  abbrev Agrees : Map Text → Map Text → Type 0
  Agrees addrs locked = (s v : Text) → lookup s addrs ≡ some v → Settled services locked s v

  Round-Agrees :
      {addrs locked : Map Text} {svc : Text} {t : Allocation}
      → Round services addrs locked svc t
      → Agrees addrs locked
      → Agrees t.0 t.1
  Round-Agrees {addrs} {locked} {svc} {t} r agrees s v h =
      let (w, q, k) = Round-settles services r in
      elim (Bool-cases (text_eq svc s)) [
        | inl y ↦
            let e : v ≡ w = ground (arith, rw q at h, y, lookup-insert svc s w addrs) in
            subst (λ x. Settled services t.1 x v) ((text_eq_iff svc s).0 y)
              (subst (λ x. Settled services t.1 svc x) (sym e) k)
        | inr n ↦
            Round-keeps services s v r
              (agrees s v (ground (arith, rw q at h, n, lookup-insert svc s w addrs)))
      ]

  Round-stays :
      {addrs locked : Map Text} {svc : Text} {t : Allocation}
      → Round services addrs locked svc t
      → Agrees addrs locked
      → (s v : Text) → lookup s addrs ≡ some v
      → lookup s t.0 ≡ some v
  Round-stays {addrs} {locked} {svc} {t} r agrees s v h =
      let (w, q, k) = Round-settles services r in
      elim (Bool-cases (text_eq svc s)) [
        | inl y ↦
            let e : w ≡ v =
              Settled-once t.1 s w v
                (subst (λ x. Settled services t.1 x w) ((text_eq_iff svc s).0 y) k)
                (Round-keeps services s v r (agrees s v h)) in
            rw q (lookup-insert svc s w addrs ∙ rw y (ap some e))
        | inr n ↦ rw q (lookup-insert svc s w addrs ∙ rw n h)
      ]

  text_eq_sym : (x y : Text) → text_eq y x ≡ true → text_eq x y ≡ true
  text_eq_sym x y h = ground (arith, text_eq_iff x y, text_eq_iff y x)

  record Loop (names : List Text) (a l : Map Text) (t : Allocation) : Type 0 where
    keeps : (s v : Text) → Settled services l s v → Settled services t.1 s v
    agrees : Agrees t.0 t.1
    stays : (s v : Text) → lookup s a ≡ some v → lookup s t.0 ≡ some v
    covers : (s : Text) → contains s names ≡ true → (v : Text) × (lookup s t.0 ≡ some v)

  module _ (source : Source) (prefix : Prefix) where
    loop_lem :
        (names : List Text) (a l : Map Text) (t : Allocation)
        → Agrees a l
        → fold_result (allocate_addr source services prefix) (a, l) names ≡ ok t
        → Loop names a l t
    unfolding fold_result
    loop_lem [] a l t g h =
        subst (λ u. Loop [] a l u) (ok_inj h)
          (record {
            keeps = λ s v z. z;
            agrees = g;
            stays = λ s v z. z;
            covers = λ s z. absurd (cc z);
          })
    loop_lem (svc ∷ names) a l t g h =
        let (m, e, f) = >>=-eq-ok (allocate_addr source services prefix (a, l) svc) _ h in
        let r = Round-of services source prefix a l svc m e in
        let (w, q, k) = Round-settles services r in
        let rest = loop_lem names m.0 m.1 t (Round-Agrees r g) f in
        record {
          keeps = λ s v z. rest.keeps s v (Round-keeps services s v r z);
          agrees = rest.agrees;
          stays = λ s v z. rest.stays s v (Round-stays r g s v z);
          covers = λ s z. elim (Bool-cases (text_eq s svc)) [
            | inl y ↦
                (w, rest.stays s w (rw q (lookup-insert svc s w a ∙ rw (text_eq_sym svc s y) refl)))
            | inr n ↦ rest.covers s (ground (arith, z, n))
          ];
        }

    loop_again :
        (again : Source) (names : List Text) (a l : Map Text) (t : Allocation) (locked : Map Text)
        → fold_result (allocate_addr source services prefix) (a, l) names ≡ ok t
        → ((s v : Text) → Settled services t.1 s v → Settled services locked s v)
        → Agrees a l
        → fold_result (allocate_addr again services prefix) (a, locked) names ≡ ok (t.0, locked)
    unfolding fold_result
    loop_again again [] a l t locked h k g = ap (λ (u : Allocation). ok (u.0, locked)) (ok_inj h)
    loop_again again (svc ∷ names) a l t locked h k g =
        let (m, e, f) = >>=-eq-ok (allocate_addr source services prefix (a, l) svc) _ h in
        let r = Round-of services source prefix a l svc m e in
        let (w, q, z) = Round-settles services r in
        let rest = loop_lem names m.0 m.1 t (Round-Agrees r g) f in
        rw (round_again services again prefix a locked svc w (k svc w (rest.keeps svc w z))) (
          subst
            (λ x.
              fold_result (allocate_addr again services prefix) (x, locked) names
              ≡ ok (t.0, locked))
            q (loop_again again names m.0 m.1 t locked f k (Round-Agrees r g)))

none_given : (services : Map Service) (locked : Map Text) → Agrees services [] locked
unfolding lookup
none_given services locked s v h = absurd (cc h)

parse_again :
    (source : Source) (rand : Text → ℕ → Option (List ℕ)) (text : Text)
    → parse_lock_prefix (record source { rand = rand }) text ≡ parse_lock_prefix source text
unfolding parse_lock_prefix
parse_again source rand text = refl

plan_of :
    (source : Source) (cfg : Compose) (text : Text) (locked locked' addrs : Map Text)
    (prefix : Prefix)
    → parse_lock_prefix source text ≡ ok prefix
    → fold_result
        (allocate_addr source cfg.services prefix)
        ([], locked)
        (sort_texts (keys cfg.services))
      ≡ ok (addrs, locked')
    → plan source cfg (record { prefix = text; services = locked })
      ≡ ok (
        record { addrs = addrs; macs = allocate_macs cfg.services },
        record { prefix = text; services = locked' },
      )
unfolding plan allocate_addrs
plan_of source cfg text locked locked' addrs prefix e f = rw e (rw f refl)

-- What a plan that succeeds has done to the lock.
module _ (source : Source) (cfg : Compose) (lock lock' : Lock) (p : NetworkPlan)
    (planned : plan source cfg lock ≡ ok (p, lock')) where
  pub plan_inv :
      (prefix : Prefix) × (t : Allocation) × (parse_lock_prefix source lock.prefix ≡ ok prefix)
      × (fold_result
            (allocate_addr source cfg.services prefix)
            ([], lock.services)
            (sort_texts (keys cfg.services))
          ≡ ok t)
      × (p ≡ record { addrs = t.0; macs = allocate_macs cfg.services })
      × (lock' ≡ record lock { services = t.1 })
  unfolding plan allocate_addrs
  plan_inv =
      let (done, e, f) = >>=-eq-ok (allocate_addrs source cfg.services lock) _ planned in
      let (prefix, e1, f1) = >>=-eq-ok (parse_lock_prefix source lock.prefix) _ e in
      let (t, e2, f2) =
        >>=-eq-ok
          (fold_result (allocate_addr source cfg.services prefix) ([], lock.services)
            (sort_texts (keys cfg.services)))
          _ f1 in
      (prefix, t, e1, e2, cc (f, f2), cc (f, f2))

  -- Where a plan succeeded, each service of the document has an address, the one that the new lock
  -- holds: its static address if it states one, and else the address that the old lock held, if it
  -- held one.
  pub plan_addresses :
      (svc : Text)
      → has svc cfg.services ≡ true
      → (v : Text) × (lookup svc p.addrs ≡ some v)
        × Settled cfg.services lock'.services svc v
        × ((w : Text) → Settled cfg.services lock.services svc w → v ≡ w)
  plan_addresses svc h =
      let (prefix, t, e, f, q, q') = plan_inv in
      let loop =
        loop_lem cfg.services source prefix (sort_texts (keys cfg.services)) [] lock.services t
          (none_given cfg.services lock.services) f in
      let (v, k) =
        loop.covers svc
          (contains-sort_texts svc (keys cfg.services) ∙ sym (has-contains svc cfg.services) ∙ h) in
      let settled = loop.agrees svc v k in
      (
        v,
        rw q k,
        rw q' settled,
        λ w z. Settled-once cfg.services t.1 svc v w settled (loop.keeps svc w z),
      )

  -- Where a plan succeeded, planning again with the lock that it returned gives the same plan and
  -- the same lock, even if no randomness is left to draw.
  pub plan_again :
      (rand : Text → ℕ → Option (List ℕ))
      → plan (record source { rand = rand }) cfg lock' ≡ ok (p, lock')
  plan_again rand =
      let (prefix, t, e, f, q, q') = plan_inv in
      let again =
        loop_again cfg.services source prefix (record source { rand = rand })
          (sort_texts (keys cfg.services)) [] lock.services t t.1 f (λ s v z. z)
          (none_given cfg.services lock.services) in
      let done =
        plan_of (record source { rand = rand }) cfg lock.prefix t.1 t.1 t.0 prefix
          (parse_again source rand lock.prefix ∙ e) again in
      subst (λ x. plan (record source { rand = rand }) cfg x ≡ ok (p, x)) (sym q')
        (subst
          (λ x.
            plan (record source { rand = rand }) cfg (record lock { services = t.1 })
            ≡ ok (x, record lock { services = t.1 }))
          (sym q) done)
