-- ===== src/Lifecycle/Migrated.antt =====
-- What the migration of an old state file keeps: the names of the devices.
use microbe.Base.{
  ◌≡◌, refl, sym, subst, ◌∙◌, true, not, Bool-cases, inl, inr, Option, some, [], ◌∷◌, ◌++◌, Text,
  text_eq, text_eq_iff, length, contains, contains-append, contains-sort_texts, Map, lookup, has,
  has-contains, keys, ◌==◌, arith,
}
use microbe.Hostnet.Names.{tap_id}
use microbe.Lifecycle.State.{
  ServiceState, V0Service, V0Store, Store, migrate_service, migrate_services, migrate_v0,
}
use microbe.Lifecycle.Devices.{net_taps, bridge_if, state_taps, store_device_names}
use microbe.Lifecycle.Spared.{contains-dedupe_names, contains-net_taps, tap_id_not_empty}

state_inj : {a b : ServiceState} → ◌≡◌ {A = Option ServiceState} (some a) (some b) → a ≡ b
state_inj e = cc e

lookup-migrate_services :
    (name : Text) (s : V0Service) (m : Map V0Service)
    → lookup name m ≡ some s
    → lookup name (migrate_services m) ≡ some (migrate_service s)
unfolding lookup migrate_services
lookup-migrate_services name s [] e = cc
lookup-migrate_services name s ((n, r) ∷ rest) e = elim (Bool-cases (text_eq n name)) [
  | inl h ↦ rw h (cc (rw h at e))
  | inr h ↦ rw h (lookup-migrate_services name s rest (rw h at e))
]

module _ (sha256 : Text → Text) where
  state_taps_has :
      (stack svc net : Text) (s : ServiceState) (services : Map ServiceState)
      → lookup svc services ≡ some s
      → contains net s.networks ≡ true
      → contains (tap_id sha256 stack svc net) (state_taps sha256 stack services) ≡ true
  unfolding state_taps lookup
  state_taps_has stack svc net s [] e h = absurd (cc e)
  state_taps_has stack svc net s ((name, r) ∷ rest) e h =
      contains-append (tap_id sha256 stack svc net) (net_taps sha256 stack name r.networks)
        (state_taps sha256 stack rest)
      ∙ elim (Bool-cases (text_eq name svc)) [
        | inl y ↦
            let same : r ≡ s = state_inj (rw y at e) in
            let held : contains net r.networks ≡ true =
              subst (λ (t : ServiceState). contains net t.networks ≡ true) (sym same) h in
            rw ((text_eq_iff name svc).0 y)
              (rw (contains-net_taps sha256 stack svc net r.networks held) refl)
        | inr n ↦ ground (arith, state_taps_has stack svc net s rest (rw n at e) h)
      ]

  -- A device that is named by what the state records is among its device names.
  pub store_device_names_has :
      (stack svc net : Text) (s : ServiceState) (store : Store)
      → lookup svc store.services ≡ some s
      → contains net s.networks ≡ true
      → contains (tap_id sha256 stack svc net) (store_device_names sha256 store stack) ≡ true
  unfolding store_device_names
  store_device_names_has stack svc net s store e h =
      contains-dedupe_names (tap_id sha256 stack svc net) (
        bridge_if sha256 stack (not (length store.networks == 0))
        ++ state_taps sha256 stack store.services)
      ∙ rw (tap_id_not_empty sha256 stack svc net) (
          contains-append (tap_id sha256 stack svc net)
            (bridge_if sha256 stack (not (length store.networks == 0)))
            (state_taps sha256 stack store.services)
          ∙ rw (state_taps_has stack svc net s store.services e h) (ground arith))

  -- A tap of a service that an old state file names by a network of the service's addresses is among
  -- the device names that the commands rebuild from the migrated state.
  pub migrate_v0-keeps_taps :
      (raw : V0Store) (stack svc net : Text) (s : V0Service)
      → lookup svc raw.services ≡ some s
      → has net s.ip ≡ true
      → contains (tap_id sha256 stack svc net) (store_device_names sha256 (migrate_v0 raw) stack)
        ≡ true
  unfolding migrate_v0 migrate_service
  migrate_v0-keeps_taps raw stack svc net s e h =
      store_device_names_has stack svc net (migrate_service s) (migrate_v0 raw)
        (lookup-migrate_services svc s raw.services e)
        (contains-sort_texts net (keys s.ip) ∙ sym (has-contains net s.ip) ∙ h)
