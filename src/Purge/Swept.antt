-- ===== src/Purge/Swept.antt =====
-- The sweep of internal/cmd/purge.go: what it deletes, and what it never does.
use microbe.Base.{
  ◌≡◌, refl, sym, subst, ◌∙◌, Bool, true, false, not, ◌&&◌, ◌||◌, Bool-cases, Option-cases, inl,
  inr, Option, some, List, [], ◌∷◌, ◌++◌, Text, text_eq, text_eq_iff, length, contains,
  contains-append, Map, lookup, ◌==◌, arith, and_then, continue,
}
use microbe.Lifecycle.State.{ServiceState, Store}
use microbe.Lifecycle.Devices.{attached_names, store_device_names, dedupe_names}
use microbe.Lifecycle.Reconcile.{VmState}
use microbe.Lifecycle.Spared.{contains-dedupe_names, attached_has, IsDevice, device_not_empty}
use microbe.Purge.World.{World, Outside, asked, teardown_links, save}
use microbe.Purge.Sweep.{
  is_alive, alive_names, alive_device_names, not_kept, purge_orphans, kept, sweep_unkept,
  sweep_orphaned_network_devices,
}

contains-not_kept :
    (x : Text) (keep names : List Text)
    → contains x (not_kept keep names) ≡ (not (contains x keep) && contains x names)
unfolding not_kept
contains-not_kept x keep [] = ground arith
contains-not_kept x keep (n ∷ names) =
    ground (arith, text_eq_iff x n, contains-not_kept x keep names)

state_inj : {a b : ServiceState} → ◌≡◌ {A = Option ServiceState} (some a) (some b) → a ≡ b
state_inj e = cc e

later_too : (a b : Bool) → b ≡ true → (a || b) ≡ true
later_too a b h = ground arith

save-swept :
    (out : Outside) (stack : Text) (store : Store) (w : World)
    → (save out stack store w).1.swept ≡ w.swept
unfolding save
save-swept out stack store w = elim (Option-cases (out.save w stack)) [
  | inl e ↦ rw (e, save) refl
  | inr (x, e) ↦ rw (e, save) refl
]

module _ (sha256 : Text → Text) where
  contains-purge_orphans :
      (x : Text) (keep : List Text) (store : Store) (stack : Text)
      → contains x (purge_orphans sha256 keep store stack) ≡ (
          not (contains x keep)
          && (not (length x == 0)
              && (contains x store.provisioned
                  || contains x (store_device_names sha256 store stack))))
  unfolding purge_orphans
  contains-purge_orphans x keep store stack =
      contains-not_kept x keep
        (dedupe_names (store.provisioned ++ store_device_names sha256 store stack))
      ∙ rw
          (
            contains-dedupe_names x (store.provisioned ++ store_device_names sha256 store stack),
            contains-append x store.provisioned (store_device_names sha256 store stack),
          )
          refl

  alive_names_has :
      (vm_state : Text → VmState) (x stack svc net : Text) (s : ServiceState)
      (services : Map ServiceState)
      → lookup svc services ≡ some s
      → is_alive s (vm_state svc) ≡ true
      → contains net s.networks ≡ true
      → IsDevice sha256 x stack svc net
      → contains x (alive_names sha256 vm_state stack services) ≡ true
  unfolding alive_names lookup
  alive_names_has vm_state x stack svc net s [] e live h q = absurd (cc e)
  alive_names_has vm_state x stack svc net s ((name, r) ∷ rest) e live h q =
      elim (Bool-cases (text_eq name svc)) [
        | inl y ↦
            let same : s ≡ r = sym (state_inj (rw y at e)) in
            let held : contains net r.networks ≡ true =
              subst (λ (t : ServiceState). contains net t.networks ≡ true) same h in
            let lives : is_alive r (vm_state svc) ≡ true =
              subst (λ (t : ServiceState). is_alive t (vm_state svc) ≡ true) same live in
            rw ((text_eq_iff name svc).0 y) (
              rw lives (
                contains-append x (attached_names sha256 stack svc r.networks)
                  (alive_names sha256 vm_state stack rest)
                ∙ rw (attached_has sha256 x stack svc net r.networks held q) refl))
        | inr n ↦
            let later = alive_names_has vm_state x stack svc net s rest (rw n at e) live h q in
            elim (Bool-cases (is_alive r (vm_state name))) [
              | inl k ↦ rw k (
                  contains-append x (attached_names sha256 stack name r.networks)
                    (alive_names sha256 vm_state stack rest)
                  ∙ later_too (contains x (attached_names sha256 stack name r.networks))
                      (contains x (alive_names sha256 vm_state stack rest)) later)
              | inr k ↦ rw k later
            ]
      ]

  -- The devices of a service that is alive are among the living ones.
  pub alive_device_names_has :
      (vm_state : Text → VmState) (x stack svc net : Text) (s : ServiceState) (store : Store)
      → lookup svc store.services ≡ some s
      → is_alive s (vm_state svc) ≡ true
      → contains net s.networks ≡ true
      → IsDevice sha256 x stack svc net
      → contains x (alive_device_names sha256 vm_state store stack) ≡ true
  unfolding alive_device_names
  alive_device_names_has vm_state x stack svc net s store e live h q =
      contains-dedupe_names x (alive_names sha256 vm_state stack store.services)
      ∙ rw
          (
            device_not_empty sha256 x stack svc net q,
            alive_names_has vm_state x stack svc net s store.services e live h q,
          )
          refl

  module _ (out : Outside) where
    -- What a sweep asks the daemon to delete, on each of its ways.
    contains-sweep_unkept :
        (dry_run : Bool) (x : Text) (keep : List Text) (store : Store) (stack : Text) (w : World)
        → contains x (sweep_unkept sha256 out dry_run keep store stack w).1.swept ≡ (
            contains x w.swept
            || (not dry_run && contains x (purge_orphans sha256 keep store stack)))
    unfolding sweep_unkept teardown_links and_then
    contains-sweep_unkept true x keep store stack w =
        elim (Bool-cases (length (purge_orphans sha256 keep store stack) == 0)) [
          | inl h ↦ rw h (ground arith)
          | inr h ↦ rw h (ground arith)
        ]
    contains-sweep_unkept false x keep store stack w =
        elim (Bool-cases (length (purge_orphans sha256 keep store stack) == 0)) [
          | inl h ↦ rw h (none_in (purge_orphans sha256 keep store stack) h)
          | inr h ↦
              rw h
                (elim (Option-cases
                  (out.teardown_links w (purge_orphans sha256 keep store stack))) [
                    | inl e ↦
                        rw (e, asked, continue)
                          (rw
                            (save-swept out stack
                              (record store { provisioned = kept keep store.provisioned })
                              (record w {
                                swept = w.swept ++ purge_orphans sha256 keep store stack;
                              }))
                            (contains-append x w.swept (purge_orphans sha256 keep store stack)))
                    | inr (y, e) ↦
                        rw (e, asked, continue)
                          (contains-append x w.swept (purge_orphans sha256 keep store stack))
                  ])
        ]
      where
        none_in :
            (names : List Text)
            → (length names == 0) ≡ true
            → contains x w.swept ≡ (contains x w.swept || contains x names)
        none_in [] h = ground arith
        none_in (n ∷ names) h = absurd (ground (arith, h))

    -- A sweep of purge asks the daemon to delete exactly the names that are recorded as
    -- provisioned or rebuilt from the state, are not empty, and are neither of the current
    -- document nor devices of a VM that is alive; a dry run asks for none.
    pub sweep-swept :
        (dry_run : Bool) (x : Text) (current : List Text) (store : Store) (stack : Text) (w : World)
        → contains x
            (sweep_orphaned_network_devices sha256 out dry_run current store stack w).1.swept
          ≡ (contains x w.swept
              || (not dry_run
                  && (not (
                        contains x current
                        || contains x
                            (alive_device_names sha256 (out.vm_state w stack) store stack))
                      && (not (length x == 0)
                          && (contains x store.provisioned
                              || contains x (store_device_names sha256 store stack))))))
    unfolding sweep_orphaned_network_devices
    sweep-swept dry_run x current store stack w =
        contains-sweep_unkept dry_run x
          (current ++ alive_device_names sha256 (out.vm_state w stack) store stack) store stack w
        ∙ rw
            (
              contains-purge_orphans x
                  (current ++ alive_device_names sha256 (out.vm_state w stack) store stack) store
                  stack,
              contains-append x current
                  (alive_device_names sha256 (out.vm_state w stack) store stack),
            )
            refl

    -- A sweep of purge asks for the deletion of neither the bridge nor a tap of a service that is
    -- attached to a network and has a recorded pid or a VM that answers, whatever the state names
    -- as provisioned and whatever the document says.
    pub sweep-spares :
        (dry_run : Bool) (current : List Text) (store : Store) (stack svc net x : Text)
        (s : ServiceState) (w : World)
        → lookup svc store.services ≡ some s
        → is_alive s (out.vm_state w stack svc) ≡ true
        → contains net s.networks ≡ true
        → IsDevice sha256 x stack svc net
        → contains x
            (sweep_orphaned_network_devices sha256 out dry_run current store stack w).1.swept
          ≡ contains x w.swept
    sweep-spares dry_run current store stack svc net x s w e live h q =
        sweep-swept dry_run x current store stack w
        ∙ rw (alive_device_names_has (out.vm_state w stack) x stack svc net s store e live h q)
            (ground arith)
