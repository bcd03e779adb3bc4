-- ===== src/Commands/Down.antt =====
-- `downRun` of internal/cmd/down.go, of a document that was read and validated. What it prints, and the
-- query of a VM without a recorded pid, which is for a warning only, are left out.
use microbe.Base.{
  Bool, ℤ, pos, int_lt, Option, none, some, List, [], ◌∷◌, Text, length, Map, lookup, insert, keys,
  erase, if◌then◌else◌, ◌==◌, return, fail, and_then, each, ignoring_error, sort_texts,
}
use microbe.Config.Schema.{Compose}
use microbe.Hostnet.Plan.{Source}
use microbe.Provisiond.Specs.{NetSpec, TapSpec, PortSpec}
use microbe.Lifecycle.Stack.{Stack}
use microbe.Lifecycle.State.{ServiceState, PortState, Store}
use microbe.Lifecycle.Statuses.{status_stopped}
use microbe.Lifecycle.Specs.{net_specs_for_teardown, tap_specs, port_specs, rule_specs}
use microbe.Lifecycle.Devices.{dedupe_names, retained_device_names, orphans}
use microbe.Commands.World.{
  stop_service, clean_run_dir, remove_volume, remove_snapshots, teardown_links, teardown_rules,
  load_state, Outside, Command, no_service_in_state, ask, ask_unless, teardown_host, lift_port,
  resolve_stack, save,
}

abbrev pub downed : ServiceState → ServiceState
downed s = record s { status = status_stopped; pid = pos 0; virtiofsd_pid = pos 0 }

abbrev pub volumes_at : Option ServiceState → List Text
volumes_at none = []
volumes_at (some s) = s.volumes

-- `delete(store.Services, name)`, if the entry is stale.
unfoldable pub drop_if_stale : Store → Text → Option ServiceState → Store
drop_if_stale store name none = store
drop_if_stale store name (some s) =
    if s.stale then record store { services = erase name store.services } else store

-- The last loop.
unfoldable pub drop_stale : Store → List Text → Store
unfolding drop_if_stale
drop_stale store [] = store
drop_stale store (name ∷ names) =
    drop_stale (drop_if_stale store name (lookup name store.services)) names

module _ (out : Outside) (dry_run : Bool) where
  -- The VM that is recorded, and its virtiofsd.
  unfoldable pub stop_pids : ServiceState → Command ℤ
  unfolding ask_unless
  stop_pids s =
      if int_lt (pos 0) s.pid
      then and_then (ask_unless out dry_run (stop_service s.pid)) (λ _.
        if int_lt (pos 0) s.virtiofsd_pid
        then ask_unless out dry_run (stop_service s.virtiofsd_pid)
        else return (pos 0))
      else return (pos 0)

  unfoldable pub record_down : Store → Text → ServiceState → Store
  record_down store name s =
      if s.stale then store else record store { services = insert name (downed s) store.services }

  -- One round of the first loop.
  unfoldable pub down_service : Store → Text → Option ServiceState → Command Store
  unfolding stop_pids ask_unless record_down
  down_service store name none = fail (no_service_in_state name)
  down_service store name (some s) = and_then (stop_pids s) λ _.
      and_then (ask_unless out dry_run (clean_run_dir name)) λ _. return (record_down store name s)

  unfoldable pub down_services : Store → List Text → Command Store
  unfolding down_service
  down_services store [] = return store
  down_services store (name ∷ names) =
      and_then (down_service store name (lookup name store.services))
        λ store'. down_services store' names

  -- A port proxy that does not stop is warned of.
  unfoldable pub stop_proxies : List (Text × PortState) → Command (Unit {0})
  unfolding ask
  stop_proxies = each λ entry.
      if int_lt (pos 0) entry.1.proxy_pid
      then ignoring_error (ask out (stop_service entry.1.proxy_pid))
      else return tt

  unfoldable pub without_proxies : Map PortState → Map PortState
  without_proxies [] = []
  without_proxies ((port, p) ∷ rest) =
      (port, if int_lt (pos 0) p.proxy_pid then record p { proxy_pid = pos 0 } else p)
      ∷ without_proxies rest

  unfoldable pub down_ports : Store → Command Store
  unfolding stop_proxies without_proxies
  down_ports store =
      if dry_run
      then return store
      else and_then (stop_proxies store.ports)
          (λ _. return (record store { ports = without_proxies store.ports }))

  -- One round of the loop of `--remove-volumes`.
  unfoldable pub remove_volumes_of : Store → Text → Command Store
  unfolding ask ask_unless
  remove_volumes_of store name =
      and_then
        (if dry_run
          then return tt
          else each (λ v. and_then (ask out (remove_volume v)) (λ _. return tt))
              (volumes_at (lookup name store.services)))
        λ _.
          and_then (ask_unless out dry_run (remove_snapshots name))
            λ _. return (record store { services = erase name store.services })

  unfoldable pub remove_volumes_loop : Store → List Text → Command Store
  unfolding remove_volumes_of
  remove_volumes_loop store [] = return store
  remove_volumes_loop store (name ∷ names) =
      and_then (remove_volumes_of store name) λ store'. remove_volumes_loop store' names

  -- The teardown of the host's devices, and the sweep of orphaned ones.
  module _ (sha256 : Text → Text) (uid gid : ℤ) (cfg : Compose) where
    unfoldable pub sweep : List Text → Command ℤ
    unfolding ask_unless
    sweep links =
        if length links == 0 then return (pos 0) else ask_unless out dry_run (teardown_links links)

    unfoldable pub teardown_devices :
        Stack → Store → List Text → List NetSpec → List TapSpec → List PortSpec → Command ℤ
    unfolding teardown_host sweep orphans rule_specs ask_unless
    teardown_devices st store selected nets taps ports =
        and_then (teardown_host out dry_run st.name nets taps ports) λ _.
          and_then (ask_unless out dry_run (teardown_rules (rule_specs cfg.rules st.services)))
            λ _. sweep (orphans sha256 cfg.services uid gid st store selected nets taps)

    unfoldable pub teardown_stack : Stack → Store → List Text → Command ℤ
    unfolding teardown_devices net_specs_for_teardown tap_specs port_specs lift_port
    teardown_stack st store selected = and_then (lift_port (port_specs cfg st selected)) λ ports.
        teardown_devices st store selected (net_specs_for_teardown st.services selected)
          (tap_specs sha256 cfg.services uid gid st selected) ports

    -- What is provisioned still: the devices of the services that stay.
    unfoldable pub record_provisioned : Stack → Store → List Text → Store
    unfolding retained_device_names dedupe_names
    record_provisioned st store selected = if dry_run then store else record store {
      provisioned = dedupe_names (retained_device_names sha256 st store selected);
    }

    -- The part behind the network plan.
    unfoldable pub finish_down : Bool → Stack → Store → List Text → Command ℤ
    unfolding teardown_stack record_provisioned remove_volumes_loop drop_stale save
    finish_down remove_volumes st store selected = and_then (teardown_stack st store selected) λ _.
        and_then
          (if remove_volumes
            then remove_volumes_loop (record_provisioned st store selected) selected
            else return (record_provisioned st store selected))
          λ store'. if dry_run then return (pos 0) else save out (drop_stale store' selected)

    unfoldable pub down_selected : Source → Bool → Store → List Text → Command ℤ
    unfolding down_services down_ports resolve_stack finish_down
    down_selected source remove_volumes store selected =
        and_then (down_services store selected) λ store1. and_then (down_ports store1) λ store2.
          and_then (resolve_stack out sha256 source cfg)
            λ st. finish_down remove_volumes st store2 selected

    -- `downRun`
    unfoldable pub down_run : Source → Bool → List Text → Command ℤ
    unfolding down_selected ask
    down_run source remove_volumes args = and_then (ask out load_state) λ _ w.
        down_selected source remove_volumes w.saved
          (if length args == 0 then sort_texts (keys w.saved.services) else args) w
