-- ===== src/Lifecycle/Devices.antt =====
-- internal/cmd/lifecycle.go and the sweep of internal/cmd/down.go: names of bridges and taps.
use microbe.Base.{
  Bool, not, ◌&&◌, ◌||◌, ℤ, List, [], ◌∷◌, ◌++◌, Text, length, contains, Map, keys, if◌then◌else◌,
  ◌==◌, sort_texts,
}
use microbe.Config.Schema.{Service}
use microbe.Hostnet.Names.{bridge_name, tap_id}
use microbe.Provisiond.Specs.{NetSpec, TapSpec}
use microbe.Lifecycle.Stack.{StackService, Stack}
use microbe.Lifecycle.State.{ServiceState, Store}
use microbe.Lifecycle.Specs.{net_specs, tap_specs}

-- The loop of `dedupeNames`; `seen` is the set of the names that were met.
unfoldable pub dedupe_from : List Text → List Text → List Text
dedupe_from seen [] = []
dedupe_from seen (n ∷ names) =
    let skipped = dedupe_from seen names in
    let kept = dedupe_from (n ∷ seen) names in
    if length n == 0 || contains n seen then skipped else n ∷ kept

unfoldable pub dedupe_names : List Text → List Text
unfolding dedupe_from
dedupe_names names = sort_texts (dedupe_from [] names)

unfoldable pub tap_names : List TapSpec → List Text
tap_names [] = []
tap_names (t ∷ taps) = t.name ∷ tap_names taps

module _ (sha256 : Text → Text) where
  -- The bridge, if there is a network to bridge.
  unfoldable pub bridge_if : Text → Bool → List Text
  bridge_if stack used = if used then bridge_name sha256 stack ∷ [] else []

  unfoldable pub net_taps : Text → Text → List Text → List Text
  net_taps stack svc [] = []
  net_taps stack svc (net ∷ nets) = tap_id sha256 stack svc net ∷ net_taps stack svc nets

  -- The devices that a service with these networks is attached to.
  unfoldable pub attached_names : Text → Text → List Text → List Text
  unfolding bridge_if net_taps
  attached_names stack svc nets =
      bridge_if stack (not (length nets == 0)) ++ net_taps stack svc nets

  unfoldable pub unselected_names : Text → List Text → Map StackService → List Text
  unfolding attached_names
  unselected_names stack selected [] = []
  unselected_names stack selected ((name, s) ∷ rest) =
      let others = unselected_names stack selected rest in
      if contains name selected then others else attached_names stack name s.networks ++ others

  unfoldable pub unselected_state_names : Text → List Text → Map ServiceState → List Text
  unfolding attached_names
  unselected_state_names stack selected [] = []
  unselected_state_names stack selected ((name, s) ∷ rest) =
      let others = unselected_state_names stack selected rest in
      if contains name selected then others else attached_names stack name s.networks ++ others

  -- `retainedDeviceNames`
  unfoldable pub retained_device_names : Stack → Store → List Text → List Text
  unfolding unselected_names unselected_state_names dedupe_names
  retained_device_names st store selected = dedupe_names (
      unselected_names st.name selected st.services
      ++ unselected_state_names st.name selected store.services)

  unfoldable pub state_taps : Text → Map ServiceState → List Text
  unfolding net_taps
  state_taps stack [] = []
  state_taps stack ((name, s) ∷ rest) = net_taps stack name s.networks ++ state_taps stack rest

  -- `storeDeviceNames`
  unfoldable pub store_device_names : Store → Text → List Text
  unfolding state_taps dedupe_names bridge_if
  store_device_names store stack =
      dedupe_names
        (bridge_if stack (not (length store.networks == 0)) ++ state_taps stack store.services)

  module _ (cfg_services : Map Service) (uid gid : ℤ) where
    -- `provisionedDeviceNames`, and `currentConfigDeviceNames` with every service selected.
    unfoldable pub provisioned_device_names : Stack → List Text → List Text
    unfolding tap_names dedupe_names bridge_if net_specs tap_specs
    provisioned_device_names st selected = dedupe_names (
        bridge_if st.name (not (length (net_specs st.services) == 0))
        ++ tap_names (tap_specs sha256 cfg_services uid gid st selected))

    unfoldable pub current_config_device_names : Stack → List Text
    unfolding provisioned_device_names
    current_config_device_names st = provisioned_device_names st (sort_texts (keys st.services))

    -- `stackDeviceNames`
    unfoldable pub stack_device_names : Stack → Store → List Text
    unfolding tap_names dedupe_names bridge_if net_specs tap_specs store_device_names
    stack_device_names st store = dedupe_names (
        bridge_if st.name (not (length (net_specs st.services) == 0))
        ++ (tap_names (tap_specs sha256 cfg_services uid gid st (sort_texts (keys st.services)))
            ++ store_device_names store st.name))

-- The candidates that are neither planned nor retained.
unfoldable pub keep_orphans : (planned retained : List Text) → List Text → List Text
keep_orphans planned retained [] = []
keep_orphans planned retained (name ∷ names) =
    let rest = keep_orphans planned retained names in
    if not (contains name planned) && not (contains name retained) then name ∷ rest else rest

-- The sweep of `down`: `nets` and `taps` are what this run tears down anyway.
module _ (sha256 : Text → Text) (cfg_services : Map Service) (uid gid : ℤ) where
  unfoldable pub orphans : Stack → Store → List Text → List NetSpec → List TapSpec → List Text
  unfolding keep_orphans dedupe_names stack_device_names retained_device_names bridge_if tap_names
  orphans st store selected nets taps =
      keep_orphans (bridge_if sha256 st.name (not (length nets == 0)) ++ tap_names taps)
        (retained_device_names sha256 st store selected)
        (dedupe_names
          (stack_device_names sha256 cfg_services uid gid st store ++ store.provisioned))
