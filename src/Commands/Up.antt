-- ===== src/Commands/Up.antt =====
-- `upRun` of internal/cmd/up.go, of a document that was read and validated. What it prints and the
-- attachment of volumes to the rendered stack are left out; the builds, which run side by side, are
-- asked for in turn, and the first that fails ends them.
use microbe.Base.{
  Bool, true, false, ℤ, pos, int_lt, int_eq, itoa, Option, none, some, List, [], ◌∷◌, ◌++◌, Text,
  codes, text_eq, length, Map, lookup, insert, has, keys, if◌then◌else◌, ◌==◌, Result, ok, err,
  return, fail, and_then, each, sort_texts,
}
use microbe.Config.Schema.{Volume, Service, Compose}
use microbe.Hostnet.Plan.{Source}
use microbe.Lifecycle.Stack.{StackService, Stack}
use microbe.Lifecycle.State.{PortState, Store}
use microbe.Lifecycle.Statuses.{status_healthy, status_degraded}
use microbe.Lifecycle.Specs.{
  SpecError, parse_port, net_specs, tap_specs, port_specs, rule_specs, ports_in,
}
use microbe.Lifecycle.Devices.{dedupe_names, provisioned_device_names}
use microbe.Lifecycle.Order.{start_order}
use microbe.Lifecycle.Build.{Run, volumes_in, build_store}
use microbe.Commands.World.{
  build_runner, ensure_volume, start_virtiofsd, start_service, wait_for_socket,
  start_port_forwarder, stop_service, apply_rules, write_stack, load_state, Outside, Command,
  outside, no_service, unhealthy, ask, ask_unless, lift_port, lift_order, provision_host,
  resolve_stack, save,
}
use microbe.Commands.Shares.{has_virtiofs_share, virtiofs_share_sockets}

-- What the loop over the services changes: the pids and statuses that it records, the port proxies of
-- the state before, and the error of a health check that failed.
pub record Progress : Type 0 where
  pub run : Run
  pub ports : Map PortState
  pub failed : Option Text

abbrev pub no_run : Run
no_run = record { pids = []; virtiofsd_pids = []; proxy_pids = []; statuses = [] }

abbrev pub addr_at : Option StackService → Text
addr_at none = []
addr_at (some s) = s.addr

-- A service of the document; `cfg.Services[svc]` of one that is not there is the zero value, which has
-- no volume, no port and no health check.
abbrev pub volumes_with_fs : Volume → Text
volumes_with_fs v = if length v.fs_type == 0 then codes "ext4" else v.fs_type

unfoldable pub proxy_at : Text → Map PortState → ℤ
proxy_at key ports = elim (lookup key ports) [ none ↦ pos 0 | some p ↦ p.proxy_pid ]

abbrev pub without_proxy : Option PortState → Text → Map PortState → Map PortState
without_proxy none key ports = ports
without_proxy (some p) key ports = insert key (record p { proxy_pid = pos 0 }) ports

module _ (out : Outside) where
  unfoldable pub ensure_volumes : List Volume → Command (Unit {0})
  unfolding ask
  ensure_volumes = each λ v.
      if text_eq v.type (codes "disk")
      then and_then (ask out (ensure_volume v.name v.size (volumes_with_fs v))) (λ _. return tt)
      else return tt

  unfoldable pub wait_for_sockets : Text → List Text → Command (Unit {0})
  unfolding ask
  wait_for_sockets svc = each λ sock. and_then (ask out (wait_for_socket svc sock)) λ _. return tt

  -- virtiofsd with its sockets, if the service needs it; its pid, else 0.
  unfoldable pub start_shares : Text → Option Service → Command ℤ
  unfolding ask wait_for_sockets has_virtiofs_share virtiofs_share_sockets
  start_shares svc none = return (pos 0)
  start_shares svc (some s) =
      if has_virtiofs_share s
      then and_then (ask out (start_virtiofsd svc))
          (λ pid. and_then (wait_for_sockets svc (virtiofs_share_sockets svc s)) λ _. return pid)
      else return (pos 0)

  -- A proxy of an earlier run that still holds the port is stopped.
  unfoldable pub stop_stale_proxy : Text → Map PortState → Command (Map PortState)
  unfolding ask proxy_at
  stop_stale_proxy key ports =
      if int_lt (pos 0) (proxy_at key ports)
      then and_then (ask out (stop_service (proxy_at key ports)))
          (λ _. return (without_proxy (lookup key ports) key ports))
      else return ports

  -- One round of the loop over the port mappings; one that cannot be read is skipped.
  unfoldable pub forward_port : Text → Result SpecError (ℤ × ℤ) → Progress → Command Progress
  unfolding stop_stale_proxy ask
  forward_port addr (err e) p = return p
  forward_port addr (ok (host, guest)) p = and_then (stop_stale_proxy (itoa host) p.ports) λ ports.
      and_then (ask out (start_port_forwarder host addr guest)) λ pid. return (record p {
        ports = ports;
        run = record p.run { proxy_pids = insert (itoa host) pid p.run.proxy_pids };
      })

  unfoldable pub forward_ports : Text → List Text → Progress → Command Progress
  unfolding forward_port parse_port
  forward_ports addr [] p = return p
  forward_ports addr (mapping ∷ mappings) p =
      and_then (forward_port addr (parse_port mapping) p) λ p'. forward_ports addr mappings p'

  -- `if err := stopService(...); err != nil { warn } else { pids[svc] = 0 }`
  unfoldable pub stop_recorded : ℤ → Text → Map ℤ → Command (Map ℤ)
  unfolding ask
  stop_recorded pid svc pids w = elim (ask out (stop_service pid) w).0 [
    | ok n ↦ (ok (insert svc (pos 0) pids), (ask out (stop_service pid) w).1)
    | err e ↦ (ok pids, (ask out (stop_service pid) w).1)
  ]

  abbrev pub stop_shares : ℤ → Text → Map ℤ → Command (Map ℤ)
  stop_shares pid svc pids = if int_eq pid (pos 0) then return pids else stop_recorded pid svc pids

  -- The end of a round whose health check failed.
  unfoldable pub degrade : Text → ℤ → ℤ → Progress → Command Progress
  unfolding stop_recorded
  degrade svc pid virtiofsd_pid p = and_then (stop_recorded pid svc p.run.pids) λ pids.
      and_then (stop_shares virtiofsd_pid svc p.run.virtiofsd_pids) λ virtiofsd_pids.
        return (record p {
          run = record p.run {
            pids = pids;
            virtiofsd_pids = virtiofsd_pids;
            statuses = insert svc status_degraded p.run.statuses;
          };
          failed = some svc;
        })

  unfoldable pub after_probe : Text → ℤ → ℤ → Progress → Result Text Bool → Command Progress
  unfolding degrade
  after_probe svc pid virtiofsd_pid p (err e) = fail (outside e)
  after_probe svc pid virtiofsd_pid p (ok false) = degrade svc pid virtiofsd_pid p
  after_probe svc pid virtiofsd_pid p (ok true) =
      return
        (record p { run = record p.run { statuses = insert svc status_healthy p.run.statuses } })

  abbrev pub has_healthcheck : Option Service → Bool
  has_healthcheck none = false
  has_healthcheck (some s) = elim s.healthcheck [ none ↦ false | some hc ↦ true ]

  unfoldable pub check_health : Text → Option Service → ℤ → ℤ → Progress → Command Progress
  unfolding after_probe
  check_health svc s pid virtiofsd_pid p w =
      (if has_healthcheck s
          then after_probe svc pid virtiofsd_pid p (out.healthy w svc)
          else return p)
        w

  abbrev pub record_pids : Text → ℤ → ℤ → Progress → Progress
  record_pids svc pid virtiofsd_pid p = record p {
    run = record p.run {
      pids = insert svc pid p.run.pids;
      virtiofsd_pids =
          if int_eq virtiofsd_pid (pos 0)
          then p.run.virtiofsd_pids
          else insert svc virtiofsd_pid p.run.virtiofsd_pids;
    };
  }

  -- One round of the loop over the services.
  unfoldable pub up_service : Compose → Stack → Progress → Text → Command Progress
  unfolding ensure_volumes start_shares ask forward_ports check_health
  up_service cfg st p svc = and_then (ensure_volumes (volumes_in (lookup svc cfg.services))) λ _.
      and_then (start_shares svc (lookup svc cfg.services)) λ virtiofsd_pid.
        and_then (ask out (start_service svc)) λ pid.
          and_then
            (forward_ports (addr_at (lookup svc st.services)) (ports_in (lookup svc cfg.services))
              (record_pids svc pid virtiofsd_pid p))
            λ p'. check_health svc (lookup svc cfg.services) pid virtiofsd_pid p'

  abbrev pub stopped_by : Option Text → Bool
  stopped_by none = false
  stopped_by (some svc) = true

  -- The loop, which ends at the first service that is not healthy.
  unfoldable pub up_services : Compose → Stack → Progress → List Text → Command Progress
  unfolding up_service
  up_services cfg st p [] = return p
  up_services cfg st p (svc ∷ order) =
      and_then (up_service cfg st p svc)
        λ p'. if stopped_by p'.failed then return p' else up_services cfg st p' order

  unfoldable pub build_all : List Text → Command (Unit {0})
  unfolding ask
  build_all = each λ svc. and_then (ask out (build_runner svc)) λ _. return tt

  unfoldable pub known_services : Stack → List Text → Command (Unit {0})
  known_services st = each λ svc. if has svc st.services then return tt else fail (no_service svc)

  abbrev result_of : Option Text → Command ℤ
  result_of none = return (pos 0)
  result_of (some svc) = fail (unhealthy svc)

  module _ (sha256 : Text → Text) (uid gid : ℤ) (fresh : Text → Text) (join : Text → Text → Text)
      (dry_run no_provision : Bool) (cfg : Compose) where
    unfoldable pub provision : Stack → List Text → Command (Unit {0})
    unfolding lift_port provision_host net_specs tap_specs port_specs rule_specs ask_unless
    provision st selected =
        if no_provision
        then return tt
        else and_then (lift_port (port_specs cfg st selected)) (λ ports.
          and_then
            (provision_host out dry_run st.name (net_specs st.services)
              (tap_specs sha256 cfg.services uid gid st selected) ports)
            λ _.
              and_then (ask_unless out dry_run (apply_rules (rule_specs cfg.rules st.services)))
                λ _. return tt)

    -- The state that the run leaves.
    unfoldable pub new_store : Stack → Store → Run → Text → List Text → Store
    unfolding build_store dedupe_names provisioned_device_names
    new_store st prev run runner_dir selected =
        record (build_store fresh join cfg st run runner_dir prev) {
          provisioned =
              if no_provision
              then prev.provisioned
              else dedupe_names (
                  prev.provisioned
                  ++ provisioned_device_names sha256 cfg.services uid gid st selected);
        }

    unfoldable pub run_services : Stack → Store → Text → List Text → List Text → Command ℤ
    unfolding up_services new_store save
    run_services st prev runner_dir selected order =
        and_then
          (up_services cfg st (record { run = no_run; ports = prev.ports; failed = none }) order)
          λ p.
            and_then
              (save out (new_store st (record prev { ports = p.ports }) p.run runner_dir selected))
              λ _. result_of p.failed

    unfoldable pub up_selected : Stack → Store → Text → List Text → Command ℤ
    unfolding known_services build_all provision run_services start_order lift_order
    up_selected st prev runner_dir selected = and_then (known_services st selected) λ _.
        and_then (if dry_run then return tt else build_all selected) λ _.
          and_then (provision st selected) λ _.
            and_then (lift_order (start_order cfg.services selected)) λ order.
              if dry_run then return (pos 0) else run_services st prev runner_dir selected order

    -- `upRun`
    unfoldable pub up_run : Source → Text → List Text → Command ℤ
    unfolding resolve_stack ask up_selected
    up_run source runner_dir args = and_then (resolve_stack out sha256 source cfg) λ st.
        and_then (ask out load_state) λ _.
          and_then (λ w. (ok w.saved, w))
            λ prev. and_then (ask out write_stack) λ _.
              up_selected st prev runner_dir
                (if length args == 0 then sort_texts (keys st.services) else args)
