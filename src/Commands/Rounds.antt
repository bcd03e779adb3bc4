-- ===== src/Commands/Rounds.antt =====
-- The loops of `downRun` of internal/cmd/down.go, by what they make of the entry of one service.
use microbe.Base.{
  ◌≡◌, refl, sym, ap, ◌∙◌, Bool, false, Bool-cases, inl, inr, ℤ, ok, ok_inj, Option, some, none,
  List, [], ◌∷◌, Text, text_eq, text_eq_iff, contains, lookup, lookup-insert, lookup-erase, insert,
  erase, if◌then◌else◌, arith, return, and_then, each, and_then-eq-ok, same_state,
}
use microbe.Lifecycle.State.{ServiceState, Store}
use microbe.Commands.World.{
  clean_run_dir, remove_volume, remove_snapshots, save_state, World, Outside, ask, ask_unless, save,
}
use microbe.Commands.Down.{
  downed, volumes_at, drop_if_stale, drop_stale, stop_pids, record_down, down_service,
  down_services, stop_proxies, without_proxies, down_ports, remove_volumes_of, remove_volumes_loop,
}

-- A service that was taken down: a stale one stays for now, with its volumes.
abbrev pub taken : Option ServiceState → Option ServiceState
taken none = none
taken (some s) = if s.stale then some s else some (downed s)

taken_twice : (o : Option ServiceState) → taken (taken o) ≡ taken o
taken_twice none = refl
taken_twice (some s) = ground arith

-- What the end of the run leaves of it.
abbrev pub unless_stale : Option ServiceState → Option ServiceState
unless_stale none = none
unless_stale (some s) = if s.stale then none else some s

unless_stale_twice : (o : Option ServiceState) → unless_stale (unless_stale o) ≡ unless_stale o
unless_stale_twice none = refl
unless_stale_twice (some s) = ground arith

-- A loop over names whose round changes the entry of its name only, and in the same way each time.
rounds :
    (f : Option ServiceState → Option ServiceState)
    → ((o : Option ServiceState) → f (f o) ≡ f o)
    → (a b c : Option ServiceState) (j n : Text) (names : List Text)
    → b ≡ (if text_eq n j then f a else a)
    → c ≡ (if contains j names then f b else b)
    → c ≡ (if contains j (n ∷ names) then f a else a)
rounds f twice a b c j n names p q = ground (arith, p, q, twice a, text_eq_iff n j, text_eq_iff j n)

lookup-drop_if_stale :
    (j n : Text) (store : Store) (o : Option ServiceState)
    → lookup n store.services ≡ o
    → lookup j (drop_if_stale store n o).services
      ≡ (if text_eq n j then unless_stale (lookup j store.services) else lookup j store.services)
unfolding drop_if_stale
lookup-drop_if_stale j n store none e = elim (Bool-cases (text_eq n j)) [
  | inl h ↦ rw h (rw (sym ((text_eq_iff n j).0 h)) (rw e refl))
  | inr h ↦ rw h refl
]
lookup-drop_if_stale j n store (some s) e = elim (Bool-cases s.stale) [
  | inl h ↦ rw h (
      lookup-erase n j store.services ∙ elim (Bool-cases (text_eq n j)) [
        | inl q ↦ rw q (rw (sym ((text_eq_iff n j).0 q)) (rw e (ground (arith, h))))
        | inr q ↦ rw q refl
      ])
  | inr h ↦ rw h (elim (Bool-cases (text_eq n j)) [
    | inl q ↦ rw q (rw (sym ((text_eq_iff n j).0 q)) (rw e (ground (arith, h))))
    | inr q ↦ rw q refl
  ])
]

pub lookup-drop_stale :
    (j : Text) (names : List Text) (store : Store)
    → lookup j (drop_stale store names).services ≡ (
        if contains j names
        then unless_stale (lookup j store.services)
        else lookup j store.services)
unfolding drop_stale
lookup-drop_stale j [] store = refl
lookup-drop_stale j (n ∷ names) store =
    let store' = drop_if_stale store n (lookup n store.services) in
    rounds unless_stale unless_stale_twice (lookup j store.services) (lookup j store'.services)
      (lookup j (drop_stale store' names).services) j n names
      (lookup-drop_if_stale j n store (lookup n store.services) refl)
      (lookup-drop_stale j names store')

else_taken : (x y : Store) (b : Bool) → b ≡ false → (if b then x else y) ≡ y
else_taken x y b h = rw h refl

module _ (out : Outside) where
  lookup-down_service :
      (j n : Text) (store store' : Store) (o : Option ServiceState) (w w' : World)
      → lookup n store.services ≡ o
      → down_service out false store n o w ≡ (ok store', w')
      → lookup j store'.services
        ≡ (if text_eq n j then taken (lookup j store.services) else lookup j store.services)
  unfolding down_service record_down
  lookup-down_service j n store store' none w w' e h = absurd (cc h)
  lookup-down_service j n store store' (some s) w w' e h =
      let (a, u, e1, e2) =
        and_then-eq-ok (stop_pids out false s)
          (λ _.
            and_then (ask_unless out false (clean_run_dir n))
              λ _. return (record_down out false store n s))
          w h in
      let (b, v, e3, e4) =
        and_then-eq-ok (ask_unless out false (clean_run_dir n))
          (λ _. return (record_down out false store n s)) u e2 in
      ap (λ (t : Store). lookup j t.services) (sym (ok_inj (ap (λ x. x.0) e4)))
      ∙ elim (Bool-cases s.stale) [
        | inl q ↦ rw q (elim (Bool-cases (text_eq n j)) [
          | inl y ↦ rw y (rw (sym ((text_eq_iff n j).0 y)) (rw e (ground (arith, q))))
          | inr y ↦ rw y refl
        ])
        | inr q ↦
            ap (λ (t : Store). lookup j t.services)
              (else_taken store (record store { services = insert n (downed s) store.services })
                s.stale q)
            ∙ lookup-insert n j (downed s) store.services
            ∙ elim (Bool-cases (text_eq n j)) [
              | inl y ↦ rw y (rw (sym ((text_eq_iff n j).0 y)) (rw e (ground (arith, q))))
              | inr y ↦ rw y refl
            ]
      ]

  pub lookup-down_services :
      (j : Text) (names : List Text) (store store' : Store) (w w' : World)
      → down_services out false store names w ≡ (ok store', w')
      → lookup j store'.services
        ≡ (if contains j names then taken (lookup j store.services) else lookup j store.services)
  unfolding down_services
  lookup-down_services j [] store store' w w' h =
      ap (λ (t : Store). lookup j t.services) (sym (ok_inj (ap (λ x. x.0) h)))
  lookup-down_services j (n ∷ names) store store' w w' h =
      let (t, u, e1, e2) =
        and_then-eq-ok (down_service out false store n (lookup n store.services))
          (λ store''. down_services out false store'' names) w h in
      rounds taken taken_twice (lookup j store.services) (lookup j t.services)
        (lookup j store'.services) j n names
        (lookup-down_service j n store t (lookup n store.services) w u refl e1)
        (lookup-down_services j names t store' u w' e2)

  pub lookup-remove_volumes_loop :
      (j : Text) (names : List Text) (store store' : Store) (w w' : World)
      → remove_volumes_loop out false store names w ≡ (ok store', w')
      → lookup j store'.services ≡ (if contains j names then none else lookup j store.services)
  unfolding remove_volumes_loop remove_volumes_of
  lookup-remove_volumes_loop j [] store store' w w' h =
      ap (λ (t : Store). lookup j t.services) (sym (ok_inj (ap (λ x. x.0) h)))
  lookup-remove_volumes_loop j (n ∷ names) store store' w w' h =
      let (t, u, e1, e2) =
        and_then-eq-ok (remove_volumes_of out false store n)
          (λ store''. remove_volumes_loop out false store'' names) w h in
      let (a, v, e3, e4) =
        and_then-eq-ok
          (each (λ (x : Text). and_then (ask out (remove_volume x)) (λ _. return tt))
            (volumes_at (lookup n store.services)))
          (λ _.
            and_then (ask_unless out false (remove_snapshots n))
              λ _. return (record store { services = erase n store.services }))
          w e1 in
      let (b, x, e5, e6) =
        and_then-eq-ok (ask_unless out false (remove_snapshots n))
          (λ _. return (record store { services = erase n store.services })) v e4 in
      rounds (λ _. none) (λ _. refl) (lookup j store.services) (lookup j t.services)
        (lookup j store'.services) j n names
        (ap (λ (y : Store). lookup j y.services) (sym (ok_inj (ap (λ y. y.0) e6)))
          ∙ lookup-erase n j store.services)
        (lookup-remove_volumes_loop j names t store' u w' e2)

  pub services-down_ports :
      (store store' : Store) (w w' : World)
      → down_ports out false store w ≡ (ok store', w')
      → store'.services ≡ store.services
  unfolding down_ports
  services-down_ports store store' w w' h =
      let (a, u, e1, e2) =
        and_then-eq-ok (stop_proxies out false store.ports)
          (λ _. return (record store { ports = without_proxies out false store.ports })) w h in
      ap (λ (t : Store). t.services) (sym (ok_inj (ap (λ x. x.0) e2)))

  pub saved-save :
      (store : Store) (w w' : World) (n : ℤ) → save out store w ≡ (ok n, w') → w'.saved ≡ store
  unfolding save
  saved-save store w w' n h =
      let (m, u, e1, e2) =
        and_then-eq-ok (ask out save_state) (λ m v. (ok m, record v { saved = store })) w h in
      ap (λ (v : World). v.saved) (sym (same_state e2))
