-- ===== src/Hostnet/Stable.antt =====
-- Addresses are permanent: planning again with the lock that a plan returned changes nothing.
use microbe.Base.{
  ◌≡◌, refl, sym, ap, ◌⊎◌, inl, inr, true, false, Bool-cases, Option, none, some, Text, text_eq_iff,
  length, Map, lookup, insert, lookup-insert, lookup-insert_self, text_eq_refl, insert_same, ◌==◌,
  ok, >>=-eq-ok, ok_inj, ◌∙◌, arith,
}
use microbe.Config.Schema.{Service}
use microbe.Hostnet.Prefix.{Prefix}
use microbe.Hostnet.Plan.{
  static_addr, Source, Allocation, fresh_addr, allocate_dynamic, allocate_addr,
}

module _ (services : Map Service) where
  -- The lock gives the service this address, and no static address overrides it.
  abbrev pub Settled : Map Text → Text → Text → Type 0
  Settled locked svc v =
      (lookup svc locked ≡ some v)
      × (((length (static_addr services svc) == 0) ≡ true) ⊎ (static_addr services svc ≡ v))

  -- What a round did: it took the static address, the lock's, or a fresh one.
  pub data Round (addrs locked : Map Text) (svc : Text) (t : Allocation) : Type 0 where
    static_taken :
        (length (static_addr services svc) == 0) ≡ false
        → t ≡ (
          insert svc (static_addr services svc) addrs,
          insert svc (static_addr services svc) locked,
        )
        → Round addrs locked svc t
    lock_taken :
        (v : Text)
        → (length (static_addr services svc) == 0) ≡ true
        → lookup svc locked ≡ some v
        → t ≡ (insert svc v addrs, locked)
        → Round addrs locked svc t
    fresh_taken :
        (v : Text)
        → (length (static_addr services svc) == 0) ≡ true
        → lookup svc locked ≡ none
        → t ≡ (insert svc v addrs, insert svc v locked)
        → Round addrs locked svc t

  Round-dynamic :
      (source : Source) (prefix : Prefix) (addrs locked : Map Text) (svc : Text) (t : Allocation)
      (o : Option Text)
      → (length (static_addr services svc) == 0) ≡ true
      → lookup svc locked ≡ o
      → allocate_dynamic source prefix svc (addrs, locked) o ≡ ok t
      → Round addrs locked svc t
  unfolding allocate_dynamic
  Round-dynamic source prefix addrs locked svc t (some v) y q h = lock_taken v y q (sym (ok_inj h))
  Round-dynamic source prefix addrs locked svc t none y q h =
      let (v, e, g) = >>=-eq-ok (fresh_addr source prefix svc) _ h in
      fresh_taken v y q (sym (ok_inj g))

  pub Round-of :
      (source : Source) (prefix : Prefix) (addrs locked : Map Text) (svc : Text) (t : Allocation)
      → allocate_addr source services prefix (addrs, locked) svc ≡ ok t
      → Round addrs locked svc t
  unfolding allocate_addr
  Round-of source prefix addrs locked svc t h =
      elim (Bool-cases (length (static_addr services svc) == 0)) [
        | inl y ↦
            Round-dynamic source prefix addrs locked svc t (lookup svc locked) y refl (rw y at h)
        | inr n ↦ static_taken n (sym (ok_inj (rw n at h)))
      ]

  -- A round settles its service, and gives it that address.
  pub Round-settles :
      {addrs locked : Map Text} {svc : Text} {t : Allocation}
      → Round addrs locked svc t
      → (v : Text) × (t.0 ≡ insert svc v addrs) × Settled t.1 svc v
  Round-settles {addrs} {locked} {svc} (static_taken n q) = (
    static_addr services svc,
    ap (λ (u : Allocation). u.0) q,
    (
      rw q (lookup-insert svc svc (static_addr services svc) locked ∙ rw (text_eq_refl svc) refl),
      inr refl,
    ),
  )
  Round-settles {addrs} {locked} {svc} (lock_taken v y e q) =
      (v, ap (λ (u : Allocation). u.0) q, (rw q e, inl y))
  Round-settles {addrs} {locked} {svc} (fresh_taken v y e q) =
      (v, ap (λ (u : Allocation). u.0) q, (rw q (lookup-insert_self svc v locked), inl y))

  -- A settled service stays settled.
  pub Round-keeps :
      {addrs locked : Map Text} {svc : Text} {t : Allocation} (s v : Text)
      → Round addrs locked svc t
      → Settled locked s v
      → Settled t.1 s v
  Round-keeps {addrs} {locked} {svc} s v (static_taken n q) k = (
    rw q (
        ground
          (arith, k, n, text_eq_iff svc s, lookup-insert svc s (static_addr services svc) locked)),
    k.1,
  )
  Round-keeps {addrs} {locked} {svc} s v (lock_taken w y e q) k = (rw q k.0, k.1)
  Round-keeps {addrs} {locked} {svc} s v (fresh_taken w y e q) k =
      (rw q (ground (arith, k.0, e, text_eq_iff svc s, lookup-insert svc s w locked)), k.1)

  -- A settled service costs no randomness, and leaves the lock as it is.
  pub round_again :
      (source : Source) (prefix : Prefix) (addrs locked : Map Text) (svc v : Text)
      → Settled locked svc v
      → allocate_addr source services prefix (addrs, locked) svc ≡ ok (insert svc v addrs, locked)
  unfolding allocate_addr
  round_again source prefix addrs locked svc v k =
      elim (Bool-cases (length (static_addr services svc) == 0)) [
        | inl y ↦ rw y (rw k.0 (unfold allocate_dynamic in refl))
        | inr n ↦ rw n (ground (arith, k.1, n, insert_same svc v locked k.0))
      ]
