-- ===== src/Commands/Tests.antt =====
-- A down of a stale service, an up of two services, and the theorems on them.
use microbe.Base.{
  ◌≡◌, refl, true, false, pos, none, some, ok, List, [], ◌∷◌, ◌++◌, Text, codes, text_eq, replicate,
  contains, lookup, insert, erase, insert_sorted, sort, sort_texts, keys, and_then, continue, each,
  fold_result, All, if◌then◌else◌,
}
use microbe.Config.Schema.{Service, Compose}
use microbe.Config.Graph.{deps_of}
use microbe.Config.Parsers.{v6}
use microbe.Hostnet.Prefix.{Prefix}
use microbe.Hostnet.Plan.{
  NetworkPlan, Source, plan, parse_lock_prefix, allocate_addrs, allocate_macs, put_macs, empty_macs,
  all_pairs,
}
use microbe.Lifecycle.Stack.{Stack, from_config, stack_services, internal_of}
use microbe.Lifecycle.State.{ServiceState, Store, empty_store}
use microbe.Lifecycle.Specs.{
  net_specs, still_used, net_specs_for_teardown, rule_specs, selected_pairs, tap_specs,
  tap_specs_of, port_specs,
}
use microbe.Lifecycle.Devices.{
  dedupe_from, dedupe_names, tap_names, unselected_names, unselected_state_names, keep_orphans,
  retained_device_names, state_taps, store_device_names, stack_device_names, orphans, bridge_if,
}
use microbe.Lifecycle.Order.{start_order, visit_all, visit_service, visit_selected, remove_name}
use microbe.Lifecycle.Steps.{DepsFirst}
use microbe.Commands.World.{
  World, Outside, answered, ask, ask_unless, lift_addr, lift_port, ensured, stack_of, with_prefix,
  save_lock_file, teardown_host, resolve_plan, resolve_stack, save,
}
use microbe.Commands.Resolved.{resolve_plan_again}
use microbe.Commands.Down.{
  drop_if_stale, drop_stale, stop_pids, record_down, down_service, down_services, stop_proxies,
  without_proxies, down_ports, sweep, teardown_devices, teardown_stack, record_provisioned,
  finish_down, down_selected, down_run,
}
use microbe.Commands.DownFailed.{IsSavedLast, down_run-IsSavedLast}
use microbe.Commands.Downed.{left_of, down_run-saved}
use microbe.Commands.Up.{
  Progress, no_run, ensure_volumes, start_shares, forward_ports, check_health, up_service,
  up_services,
}
use microbe.Commands.Shares.{has_virtiofs_share, any_virtiofs_share}
use microbe.Commands.Started.{starts_of}
use microbe.Commands.Ordered.{up_services-DepsFirst}

abbrev document : Compose
document = record {
  schema_version = pos 2;
  name = codes "demo";
  networks = [];
  services = [];
  rules = [];
}

abbrev network : Prefix
network = record { addr = v6 (replicate 16 253); bits = 64 }

abbrev source : Source
source = record {
  parse_prefix = λ text. some network;
  print_addr = λ bytes. [];
  rand = λ svc n. none;
}

-- A service that the document does not name any more.
abbrev old_state : ServiceState
old_state = record {
  id = codes "id-1";
  addr = codes "fd00::2";
  networks = [];
  cid = pos 3;
  macs = [];
  volumes = [];
  status = codes "running";
  pid = pos 42;
  runner = [];
  virtiofsd_pid = pos 0;
  stale = true;
}

abbrev stored : Store
stored = record empty_store { services = (codes "old", old_state) ∷ [] }

abbrev at_first : World
at_first = record { lock = record { prefix = []; services = [] }; saved = stored; calls = [] }

-- A host on which every call succeeds, and nothing is healthy.
abbrev host : Outside
host = record {
  answer = λ w call. ok (pos 9);
  prefix = λ w. ok (codes "fd00::/64");
  healthy = λ w svc. ok false;
}

abbrev after_plan : World
after_plan = (resolve_plan host source document at_first).1

abbrev empty_plan : NetworkPlan
empty_plan = record { addrs = []; macs = [] }

planned :
    resolve_plan host source document at_first ≡ (ok (empty_plan, codes "fd00::/64"), after_plan)
unfolding resolve_plan ask answered with_prefix ensured lift_addr save_lock_file and_then continue
    plan parse_lock_prefix allocate_addrs fold_result sort_texts sort keys allocate_macs put_macs
    empty_macs all_pairs
planned = refl

resolve_plan_again_example :
    ((resolve_plan host source document after_plan).0 ≡ ok (empty_plan, codes "fd00::/64"))
    × ((resolve_plan host source document after_plan).1.lock ≡ after_plan.lock)
resolve_plan_again_example =
    resolve_plan_again host host source document empty_plan (codes "fd00::/64") at_first after_plan
      after_plan (λ svc n. none) planned refl (λ v. (pos 9, refl)) (λ v. (pos 9, refl))

abbrev after_down : World
after_down = (down_run host false (λ t. t) (pos 0) (pos 0) document source false [] at_first).1

downed :
    down_run host false (λ t. t) (pos 0) (pos 0) document source false [] at_first
    ≡ (ok (pos 9), after_down)
unfolding down_run down_selected down_services down_service stop_pids record_down down_ports
    stop_proxies without_proxies finish_down teardown_stack teardown_devices teardown_host sweep
    record_provisioned drop_stale drop_if_stale resolve_stack resolve_plan stack_of ask ask_unless
    answered with_prefix ensured lift_addr lift_port save_lock_file save and_then continue each plan
    parse_lock_prefix allocate_addrs fold_result sort_texts sort insert_sorted keys allocate_macs
    put_macs empty_macs all_pairs from_config stack_services internal_of net_specs_for_teardown
    still_used net_specs tap_specs tap_specs_of selected_pairs port_specs rule_specs orphans
    keep_orphans dedupe_names dedupe_from retained_device_names unselected_names
    unselected_state_names stack_device_names store_device_names state_taps tap_names bridge_if
    lookup erase text_eq
downed = refl

down_saved_example : lookup (codes "old") after_down.saved.services ≡ (
    if contains (codes "old") (sort_texts (keys at_first.saved.services))
    then left_of host false (lookup (codes "old") at_first.saved.services)
    else lookup (codes "old") at_first.saved.services)
down_saved_example =
    down_run-saved host (λ t. t) (pos 0) (pos 0) document source false [] (codes "old") at_first
      after_down (pos 9) downed

down_failed_example :
    IsSavedLast at_first
      (down_run host false (λ t. t) (pos 0) (pos 0) document source false [] at_first)
down_failed_example =
    down_run-IsSavedLast host (λ t. t) (pos 0) (pos 0) document source false [] at_first

abbrev service : List Text → Service
service depends_on = record {
  vcpus = pos 1;
  mem = pos 512;
  hypervisor = [];
  os = [];
  config_present = true;
  volumes = [];
  networks = [];
  ports = [];
  depends_on = depends_on;
  healthcheck = none;
}

abbrev two : Compose
two = record document {
  services = (codes "web", service (codes "db" ∷ [])) ∷ (codes "db", service []) ∷ [];
}

abbrev selected : List Text
selected = codes "web" ∷ codes "db" ∷ []

abbrev order : List Text
order = codes "db" ∷ codes "web" ∷ []

ordered : start_order two.services selected ≡ ok order
unfolding start_order visit_all visit_service visit_selected remove_name deps_of lookup text_eq
ordered = refl

abbrev rendered : Stack
rendered = record { name = codes "demo"; services = []; internal = [] }

abbrev nothing_yet : Progress
nothing_yet = record { run = no_run; ports = []; failed = none }

abbrev two_pids : Progress
two_pids = record nothing_yet {
  run = record no_run { pids = (codes "db", pos 9) ∷ (codes "web", pos 9) ∷ [] };
}

abbrev after_up : World
after_up = (up_services host two rendered nothing_yet order at_first).1

up : up_services host two rendered nothing_yet order at_first ≡ (ok two_pids, after_up)
unfolding up_services up_service ensure_volumes start_shares forward_ports check_health ask answered
    has_virtiofs_share any_virtiofs_share and_then continue each lookup insert text_eq
up = refl

up_example :
    (done : List Text) × (starts_of after_up ≡ starts_of at_first ++ done)
    × DepsFirst two.services selected [] done
    × (two_pids.failed ≡ none → All (λ n. contains n done ≡ true) selected)
up_example =
    up_services-DepsFirst host two rendered nothing_yet two_pids selected order at_first after_up
      ordered refl up
