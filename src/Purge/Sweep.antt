-- ===== src/Purge/Sweep.antt =====
-- The sweep of network devices of internal/cmd/purge.go, with `aliveDeviceNames` of
-- internal/cmd/lifecycle.go.
use microbe.Base.{
  Bool, ◌||◌, pos, int_lt, List, [], ◌∷◌, ◌++◌, Text, length, contains, Map, if◌then◌else◌, ◌==◌,
  return, and_then,
}
use microbe.Lifecycle.State.{ServiceState, Store}
use microbe.Lifecycle.Devices.{dedupe_names, attached_names, store_device_names}
use microbe.Lifecycle.Reconcile.{VmState, answers}
use microbe.Purge.World.{Outside, Purge, teardown_links, save}

-- A pid, or an API socket that answers.
unfoldable pub is_alive : ServiceState → VmState → Bool
unfolding answers
is_alive s answer = int_lt (pos 0) s.pid || answers answer

-- The candidates of the sweep that are not kept.
unfoldable pub not_kept : (keep : List Text) → List Text → List Text
not_kept keep [] = []
not_kept keep (n ∷ names) =
    let rest = not_kept keep names in if contains n keep then rest else n ∷ rest

-- The elements of `store.Provisioned` that are kept.
unfoldable pub kept : (keep : List Text) → List Text → List Text
kept keep [] = []
kept keep (n ∷ names) = let rest = kept keep names in if contains n keep then n ∷ rest else rest

module _ (sha256 : Text → Text) where
  unfoldable pub alive_names : (Text → VmState) → Text → Map ServiceState → List Text
  unfolding is_alive attached_names
  alive_names vm_state stack [] = []
  alive_names vm_state stack ((name, s) ∷ rest) =
      let others = alive_names vm_state stack rest in
      if is_alive s (vm_state name)
      then attached_names sha256 stack name s.networks ++ others
      else others

  -- `aliveDeviceNames`
  unfoldable pub alive_device_names : (Text → VmState) → Store → Text → List Text
  unfolding alive_names dedupe_names
  alive_device_names vm_state store stack = dedupe_names (alive_names vm_state stack store.services)

  unfoldable pub purge_orphans : (keep : List Text) → Store → Text → List Text
  unfolding not_kept dedupe_names store_device_names
  purge_orphans keep store stack =
      not_kept keep (dedupe_names (store.provisioned ++ store_device_names sha256 store stack))

  module _ (out : Outside) where
    -- The sweep with its set `keep` at hand.
    unfoldable pub sweep_unkept : Bool → List Text → Store → Text → Purge (Unit {0})
    unfolding purge_orphans kept teardown_links save
    sweep_unkept dry_run keep store stack =
        if length (purge_orphans keep store stack) == 0
        then return tt
        else if dry_run
        then return tt
        else and_then (teardown_links out (purge_orphans keep store stack))
            λ _. save out stack (record store { provisioned = kept keep store.provisioned })

    -- `sweepOrphanedNetworkDevices`; `current` is `currentConfigDeviceNames`, empty without a stack. A
    -- dry run prints in place of the daemon's call.
    unfoldable pub sweep_orphaned_network_devices :
        Bool → List Text → Store → Text → Purge (Unit {0})
    unfolding sweep_unkept alive_device_names
    sweep_orphaned_network_devices dry_run current store stack w =
        sweep_unkept dry_run (current ++ alive_device_names (out.vm_state w stack) store stack)
          store stack w
