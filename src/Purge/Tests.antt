-- ===== src/Purge/Tests.antt =====
-- Purges of a stack with one service, and the theorems on them.
use microbe.Base.{
  ◌≡◌, refl, true, false, not, ◌&&◌, ◌||◌, ◌==◌, pos, none, some, ok, atoi, [], ◌∷◌, ◌++◌, Text,
  codes, text_eq, text_eq_refl, has_prefix, contains, lookup, insert, insert_sorted, sort,
  sort_texts, keys, and_then, continue, each, arith, length, value, value_from, positive,
}
use microbe.Hostnet.Names.{tap_id}
use microbe.Lifecycle.State.{ServiceState, Store}
use microbe.Lifecycle.Devices.{store_device_names}
use microbe.Lifecycle.Spared.{IsDevice}
use microbe.Lifecycle.Reconcile.{answers}
use microbe.Purge.World.{World, Outside, asked, stop, save}
use microbe.Purge.Sweep.{is_alive, alive_device_names, sweep_orphaned_network_devices}
use microbe.Purge.Swept.{sweep-swept, sweep-spares}
use microbe.Purge.Vms.{
  has_substring, api_socket_proc_match, spaced, pids_for_api_socket, stopped_state, stop_fn,
  stop_recorded, unrecorded_pids, mark, stop_unrecorded, stop_vm, stop_vms, stop_stack_vms,
}
use microbe.Purge.Stopped.{IsStopped}
use microbe.Purge.Halted.{stop_stack_vms-halts}
use microbe.Purge.Unrecorded.{stop_vm_forgets_virtiofsd}

abbrev web_state : ServiceState
web_state = record {
  id = [];
  addr = codes "fd00::2";
  networks = codes "net" ∷ [];
  cid = pos 3;
  macs = [];
  volumes = [];
  status = codes "running";
  pid = pos 42;
  runner = [];
  virtiofsd_pid = pos 43;
  stale = false;
}

abbrev recorded : Store
recorded = record {
  stack = codes "demo";
  networks = codes "net" ∷ [];
  services = (codes "web", web_state) ∷ [];
  ports = [];
  provisioned = codes "br-old" ∷ [];
}

abbrev at_first : World
at_first = record { saved = []; stopped = []; swept = []; removed = []; input = [] }

-- A host on which all succeeds, with one VM that runs.
abbrev host : Outside
host = record {
  stop = λ w pid. none;
  teardown_links = λ w links. none;
  remove = λ w path. none;
  save = λ w stack. none;
  load = λ w stack. none;
  stacks = λ w. ok (codes "demo" ∷ []);
  vm_state = λ w stack svc. ok (codes "Running");
  processes = λ w. (codes "50", some (codes "cloud-hypervisor --api-socket web.sock")) ∷ [];
  join = λ a b. a ++ (codes "/" ++ b);
}

abbrev web_tap : Text
web_tap = tap_id (λ t. t) (codes "demo") (codes "web") (codes "net")

has_web : lookup (codes "web") recorded.services ≡ some web_state
unfolding lookup text_eq
has_web = refl

web_runs : is_alive web_state (host.vm_state at_first (codes "demo") (codes "web")) ≡ true
unfolding is_alive
web_runs = refl

on_net : contains (codes "net") web_state.networks ≡ true
unfolding text_eq
on_net = refl

web-IsDevice : IsDevice (λ t. t) web_tap (codes "demo") (codes "web") (codes "net")
web-IsDevice = ground (arith, text_eq_refl web_tap)

abbrev after_sweep : World
after_sweep =
    (sweep_orphaned_network_devices (λ t. t) host false [] recorded (codes "demo") at_first).1

spares_example : contains web_tap after_sweep.swept ≡ contains web_tap at_first.swept
spares_example =
    sweep-spares (λ t. t) host false [] recorded (codes "demo") (codes "web") (codes "net") web_tap
      web_state at_first has_web web_runs on_net web-IsDevice

swept_example : contains (codes "br-old") after_sweep.swept ≡ (
    contains (codes "br-old") at_first.swept
    || (not false
        && (not (
              contains (codes "br-old") []
              || contains (codes "br-old") (
                  alive_device_names
                    (λ t. t)
                    (host.vm_state at_first (codes "demo"))
                    recorded
                    (codes "demo")))
            && (not (length (codes "br-old") == 0)
                && (contains (codes "br-old") recorded.provisioned
                    || contains
                        (codes "br-old")
                        (store_device_names (λ t. t) recorded (codes "demo")))))))
swept_example = sweep-swept (λ t. t) host false (codes "br-old") [] recorded (codes "demo") at_first

abbrev after_stop : World
after_stop = (stop_stack_vms host false (codes "demo") recorded at_first).1

all_stopped : stop_stack_vms host false (codes "demo") recorded at_first ≡ (ok tt, after_stop)
unfolding stop_stack_vms stop_vms stop_vm stop_recorded stop_unrecorded stop_fn stop asked
    unrecorded_pids answers pids_for_api_socket api_socket_proc_match has_substring spaced mark save
    and_then continue each sort_texts sort insert_sorted keys lookup insert text_eq atoi value
    value_from positive has_prefix
all_stopped = refl

halts_example :
    IsStopped host web_state after_stop
    × ((saved : Store) × (lookup (codes "demo") after_stop.saved ≡ some saved)
        × (lookup (codes "web") saved.services
            ≡ some (record web_state {
              status = codes "stopped";
              pid = pos 0;
              virtiofsd_pid = pos 0;
            })))
halts_example =
    stop_stack_vms-halts host (codes "demo") (codes "web") recorded web_state at_first after_stop tt
      has_web refl all_stopped

-- The state lost the VM's pid, and not that of its virtiofsd.
abbrev lost : ServiceState
lost = record web_state { pid = pos 0 }

abbrev after_round : World
after_round = (stop_vm host false (codes "demo") recorded (codes "web") (some lost) at_first).1

abbrev round_store : Store
round_store = record recorded { services = (codes "web", stopped_state lost) ∷ [] }

round_done :
    stop_vm host false (codes "demo") recorded (codes "web") (some lost) at_first
    ≡ (ok round_store, after_round)
unfolding stop_vm stop_recorded stop_unrecorded stop_fn stop asked unrecorded_pids answers
    pids_for_api_socket api_socket_proc_match has_substring spaced mark and_then continue each
    lookup insert text_eq atoi value value_from positive has_prefix
round_done = refl

one_process :
    pids_for_api_socket (host.processes at_first) (codes "web" ++ codes ".sock") ≡ pos 50 ∷ []
unfolding pids_for_api_socket api_socket_proc_match has_substring spaced atoi value value_from
    positive has_prefix
one_process = refl

web_answers : answers (host.vm_state at_first (codes "demo") (codes "web")) ≡ true
unfolding answers
web_answers = refl

forgets_example :
    (after_round.stopped ≡ at_first.stopped ++ pos 50 ∷ [])
    × (lookup (codes "web") round_store.services
        ≡ some (record lost { status = codes "stopped"; pid = pos 0; virtiofsd_pid = pos 0 }))
forgets_example =
    stop_vm_forgets_virtiofsd host (codes "demo") (codes "web") recorded round_store lost (pos 50)
      [] at_first after_round refl web_answers one_process round_done
