-- ===== src/Commands/DownKept.antt =====
-- The parts of `downRun` of internal/cmd/down.go leave the state file as it is.
use microbe.Base.{
  refl, Bool, ◌==◌, ℤ, pos, int_lt, Option, some, none, List, [], ◌∷◌, Text, length, lookup, erase,
  if◌then◌else◌, return, and_then, each, ignoring_error, and_then-Keeps, if-Keeps, each-Keeps,
}
use microbe.Config.Schema.{Compose}
use microbe.Provisiond.Specs.{NetSpec, TapSpec, PortSpec}
use microbe.Lifecycle.Stack.{Stack}
use microbe.Lifecycle.State.{ServiceState, PortState, Store}
use microbe.Lifecycle.Specs.{net_specs_for_teardown, tap_specs, port_specs, rule_specs}
use microbe.Lifecycle.Devices.{orphans}
use microbe.Commands.World.{
  stop_service, clean_run_dir, remove_volume, remove_snapshots, teardown_links, teardown_ports,
  teardown_taps, teardown_networks, teardown_rules, Outside, ask, ask_unless, lift_port,
  teardown_host,
}
use microbe.Commands.Down.{
  volumes_at, stop_pids, record_down, down_service, down_services, stop_proxies, without_proxies,
  down_ports, remove_volumes_of, remove_volumes_loop, sweep, teardown_devices, teardown_stack,
}
use microbe.Commands.Kept.{saved_of, KeepsFile, lift_port-Keeps, ask-Keeps, ask_unless-Keeps}

module _ (out : Outside) (dry_run : Bool) where
  pub stop_pids-Keeps : (s : ServiceState) → KeepsFile (stop_pids out dry_run s)
  unfolding stop_pids
  stop_pids-Keeps s =
      if-Keeps saved_of (int_lt (pos 0) s.pid)
        (and_then (ask_unless out dry_run (stop_service s.pid)) (λ _.
          if int_lt (pos 0) s.virtiofsd_pid
          then ask_unless out dry_run (stop_service s.virtiofsd_pid)
          else return (pos 0)))
        (return (pos 0))
        (and_then-Keeps saved_of (ask_unless out dry_run (stop_service s.pid))
          (λ _.
            if int_lt (pos 0) s.virtiofsd_pid
            then ask_unless out dry_run (stop_service s.virtiofsd_pid)
            else return (pos 0))
          (ask_unless-Keeps out dry_run (stop_service s.pid))
          (λ _.
            if-Keeps saved_of (int_lt (pos 0) s.virtiofsd_pid)
              (ask_unless out dry_run (stop_service s.virtiofsd_pid)) (return (pos 0))
              (ask_unless-Keeps out dry_run (stop_service s.virtiofsd_pid)) (λ w. refl)))
        (λ w. refl)

  pub down_service-Keeps :
      (store : Store) (name : Text) (o : Option ServiceState)
      → KeepsFile (down_service out dry_run store name o)
  unfolding down_service
  down_service-Keeps store name none = λ w. refl
  down_service-Keeps store name (some s) =
      and_then-Keeps saved_of (stop_pids out dry_run s)
        (λ _.
          and_then (ask_unless out dry_run (clean_run_dir name))
            λ _. return (record_down out dry_run store name s))
        (stop_pids-Keeps s)
        λ _.
          and_then-Keeps saved_of (ask_unless out dry_run (clean_run_dir name))
            (λ _. return (record_down out dry_run store name s))
            (ask_unless-Keeps out dry_run (clean_run_dir name)) (λ _ w. refl)

  pub down_services-Keeps :
      (names : List Text) (store : Store) → KeepsFile (down_services out dry_run store names)
  unfolding down_services
  down_services-Keeps [] store w = refl
  down_services-Keeps (name ∷ names) store w =
      and_then-Keeps saved_of (down_service out dry_run store name (lookup name store.services))
        (λ store'. down_services out dry_run store' names)
        (down_service-Keeps store name (lookup name store.services))
        (λ store'. down_services-Keeps names store') w

  pub stop_proxies-Keeps :
      (ports : List (Text × PortState)) → KeepsFile (stop_proxies out dry_run ports)
  unfolding stop_proxies ignoring_error
  stop_proxies-Keeps ports =
      each-Keeps saved_of
        (λ entry.
          if int_lt (pos 0) entry.1.proxy_pid
          then ignoring_error (ask out (stop_service entry.1.proxy_pid))
          else return tt)
        ports
        λ entry.
          if-Keeps saved_of (int_lt (pos 0) entry.1.proxy_pid)
            (ignoring_error (ask out (stop_service entry.1.proxy_pid))) (return tt)
            (λ w. ask-Keeps out (stop_service entry.1.proxy_pid) w) (λ w. refl)

  pub down_ports-Keeps : (store : Store) → KeepsFile (down_ports out dry_run store)
  unfolding down_ports
  down_ports-Keeps store =
      if-Keeps saved_of dry_run (return store)
        (and_then (stop_proxies out dry_run store.ports)
          (λ _. return (record store { ports = without_proxies out dry_run store.ports })))
        (λ w. refl)
        (and_then-Keeps saved_of (stop_proxies out dry_run store.ports)
          (λ _. return (record store { ports = without_proxies out dry_run store.ports }))
          (stop_proxies-Keeps store.ports) (λ _ w. refl))

  pub remove_volumes_of-Keeps :
      (store : Store) (name : Text) → KeepsFile (remove_volumes_of out dry_run store name)
  unfolding remove_volumes_of
  remove_volumes_of-Keeps store name =
      and_then-Keeps saved_of
        (if dry_run
          then return tt
          else each (λ v. and_then (ask out (remove_volume v)) (λ _. return tt))
              (volumes_at (lookup name store.services)))
        (λ _.
          and_then (ask_unless out dry_run (remove_snapshots name))
            λ _. return (record store { services = erase name store.services }))
        (if-Keeps saved_of dry_run (return tt)
          (each (λ v. and_then (ask out (remove_volume v)) (λ _. return tt))
            (volumes_at (lookup name store.services)))
          (λ w. refl)
          (each-Keeps saved_of (λ v. and_then (ask out (remove_volume v)) (λ _. return tt))
            (volumes_at (lookup name store.services))
            λ v.
              and_then-Keeps saved_of (ask out (remove_volume v)) (λ _. return tt)
                (ask-Keeps out (remove_volume v)) (λ _ w. refl)))
        λ _.
          and_then-Keeps saved_of (ask_unless out dry_run (remove_snapshots name))
            (λ _. return (record store { services = erase name store.services }))
            (ask_unless-Keeps out dry_run (remove_snapshots name)) (λ _ w. refl)

  pub remove_volumes_loop-Keeps :
      (names : List Text) (store : Store) → KeepsFile (remove_volumes_loop out dry_run store names)
  unfolding remove_volumes_loop
  remove_volumes_loop-Keeps [] store w = refl
  remove_volumes_loop-Keeps (name ∷ names) store w =
      and_then-Keeps saved_of (remove_volumes_of out dry_run store name)
        (λ store'. remove_volumes_loop out dry_run store' names)
        (remove_volumes_of-Keeps store name) (λ store'. remove_volumes_loop-Keeps names store') w

  module _ (sha256 : Text → Text) (uid gid : ℤ) (cfg : Compose) where
    pub teardown_devices-Keeps :
        (st : Stack) (store : Store) (selected : List Text) (nets : List NetSpec)
        (taps : List TapSpec) (ports : List PortSpec)
        → KeepsFile
            (teardown_devices out dry_run sha256 uid gid cfg st store selected nets taps ports)
    unfolding teardown_devices teardown_host sweep
    teardown_devices-Keeps st store selected nets taps ports =
        let links = orphans sha256 cfg.services uid gid st store selected nets taps in
        and_then-Keeps saved_of (teardown_host out dry_run st.name nets taps ports)
          (λ _.
            and_then (ask_unless out dry_run (teardown_rules (rule_specs cfg.rules st.services)))
              λ _. sweep out dry_run sha256 uid gid cfg links)
          (and_then-Keeps saved_of (ask_unless out dry_run (teardown_ports ports))
            (λ _.
              and_then (ask_unless out dry_run (teardown_taps taps))
                λ _. ask_unless out dry_run (teardown_networks st.name nets))
            (ask_unless-Keeps out dry_run (teardown_ports ports))
            λ _.
              and_then-Keeps saved_of (ask_unless out dry_run (teardown_taps taps))
                (λ _. ask_unless out dry_run (teardown_networks st.name nets))
                (ask_unless-Keeps out dry_run (teardown_taps taps))
                λ _. ask_unless-Keeps out dry_run (teardown_networks st.name nets))
          λ _.
            and_then-Keeps saved_of
              (ask_unless out dry_run (teardown_rules (rule_specs cfg.rules st.services)))
              (λ _. sweep out dry_run sha256 uid gid cfg links)
              (ask_unless-Keeps out dry_run (teardown_rules (rule_specs cfg.rules st.services)))
              λ _.
                if-Keeps saved_of (length links == 0) (return (pos 0))
                  (ask_unless out dry_run (teardown_links links)) (λ w. refl)
                  (ask_unless-Keeps out dry_run (teardown_links links))

    pub teardown_stack-Keeps :
        (st : Stack) (store : Store) (selected : List Text)
        → KeepsFile (teardown_stack out dry_run sha256 uid gid cfg st store selected)
    unfolding teardown_stack
    teardown_stack-Keeps st store selected =
        and_then-Keeps saved_of (lift_port (port_specs cfg st selected))
          (λ ports.
            teardown_devices out dry_run sha256 uid gid cfg st store selected
              (net_specs_for_teardown st.services selected)
              (tap_specs sha256 cfg.services uid gid st selected) ports)
          (lift_port-Keeps (port_specs cfg st selected))
          (teardown_devices-Keeps st store selected (net_specs_for_teardown st.services selected)
            (tap_specs sha256 cfg.services uid gid st selected))
