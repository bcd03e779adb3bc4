-- ===== src/Lifecycle/Tests.antt =====
-- A down of one service of two, and the theorem on it.
use microbe.Base.{
  ◌≡◌, refl, true, false, pos, none, some, List, [], ◌∷◌, Text, codes, text_eq, text_eq_refl,
  contains, Map, lookup, All, ◌⊎◌, ok, err, has, if◌then◌else◌, arith,
}
use microbe.Config.Schema.{Service, Compose}
use microbe.Hostnet.Names.{tap_id}
use microbe.Lifecycle.Stack.{StackService, Stack}
use microbe.Lifecycle.State.{ServiceState, Store}
use microbe.Lifecycle.Reconcile.{
  VmState, answers, with_answer, reconcile_service, reconcile_services, reconcile_vm_state, pid_in,
  reconcile_vm_state-pid,
}
use microbe.Lifecycle.Build.{Run, build_store}
use microbe.Lifecycle.Built.{HasDistinctKeys, built, gone, lookup-build_store}
use microbe.Lifecycle.Devices.{orphans}
use microbe.Config.Graph.{deps_of}
use microbe.Lifecycle.Order.{
  cycle_at, remove_name, visit_selected, visit_service, visit_all, start_order,
}
use microbe.Lifecycle.Steps.{DepsFirst}
use microbe.Lifecycle.Topological.{start_order_topological}
use microbe.Lifecycle.Spared.{IsDevice, orphans-spare}

abbrev attached : StackService
attached = record {
  cid = 3;
  os = codes "nixos";
  networks = codes "net" ∷ [];
  macs = [];
  addr = codes "fd00::2";
  gateway = codes "fd00::1";
  prefix = 64;
  taps = [];
  build_target = [];
}

abbrev demo : Stack
demo = record {
  name = codes "demo";
  services = (codes "web", attached) ∷ (codes "db", attached) ∷ [];
  internal = [];
}

abbrev web_tap : Text
web_tap = tap_id (λ t. t) (codes "demo") (codes "web") (codes "net")

abbrev recorded : Store
recorded = record {
  stack = codes "demo";
  networks = codes "net" ∷ [];
  services = [];
  ports = [];
  provisioned = web_tap ∷ codes "br-old" ∷ [];
}

has_web : lookup (codes "web") demo.services ≡ some attached
unfolding lookup text_eq
has_web = refl

web_stays : contains (codes "web") (codes "db" ∷ []) ≡ false
unfolding text_eq
web_stays = refl

on_net : contains (codes "net") attached.networks ≡ true
unfolding text_eq
on_net = refl

web-IsDevice : IsDevice (λ t. t) web_tap (codes "demo") (codes "web") (codes "net")
web-IsDevice = ground (arith, text_eq_refl web_tap)

spared_example :
    contains web_tap (orphans (λ t. t) [] (pos 0) (pos 0) demo recorded (codes "db" ∷ []) [] [])
    ≡ false
spared_example =
    orphans-spare (λ t. t) [] (pos 0) (pos 0) demo recorded (codes "db" ∷ []) [] [] (codes "web")
      (codes "net") web_tap attached has_web web_stays on_net web-IsDevice

abbrev service : List Text → Service
service depends_on = record {
  vcpus = pos 1;
  mem = pos 512;
  hypervisor = [];
  os = [];
  config_present = true;
  volumes = [];
  networks = [];
  ports = [];
  depends_on = depends_on;
  healthcheck = none;
}

abbrev two : Map Service
two = (codes "web", service (codes "db" ∷ [])) ∷ (codes "db", service []) ∷ []

-- The database first.
ordered : start_order two (codes "web" ∷ codes "db" ∷ []) ≡ ok (codes "db" ∷ codes "web" ∷ [])
unfolding start_order visit_all visit_service visit_selected remove_name deps_of lookup text_eq
ordered = refl

order_example :
    ((order : List Text) × (start_order two (codes "web" ∷ codes "db" ∷ []) ≡ ok order)
      × DepsFirst two (codes "web" ∷ codes "db" ∷ []) [] order
      × All (λ n. contains n order ≡ true) (codes "web" ∷ codes "db" ∷ []))
    ⊎ ((n : Text) × (start_order two (codes "web" ∷ codes "db" ∷ []) ≡ err (cycle_at n)))
order_example = start_order_topological two (codes "web" ∷ codes "db" ∷ [])

abbrev web_state : ServiceState
web_state = record {
  id = codes "id-1";
  addr = codes "fd00::2";
  networks = codes "net" ∷ [];
  cid = pos 3;
  macs = [];
  volumes = [];
  status = codes "running";
  pid = pos 42;
  runner = [];
  virtiofsd_pid = pos 0;
  stale = false;
}

abbrev running : Store
running = record {
  stack = codes "demo";
  networks = codes "net" ∷ [];
  services = (codes "web", web_state) ∷ [];
  ports = [];
  provisioned = [];
}

-- The VM is gone.
abbrev unanswered : Text → VmState
unanswered svc = ok []

reconciled :
    (reconcile_vm_state unanswered running).services
    ≡ (codes "web", record web_state { status = codes "stopped"; pid = pos 0 }) ∷ []
unfolding reconcile_vm_state reconcile_services reconcile_service with_answer
reconciled = refl

reconcile_example :
    pid_in (lookup (codes "web") (reconcile_vm_state unanswered running).services) ≡ (
      if answers (unanswered (codes "web"))
      then pid_in (lookup (codes "web") running.services)
      else pos 0)
reconcile_example = reconcile_vm_state-pid unanswered (codes "web") running

abbrev no_services : Compose
no_services = record {
  schema_version = pos 2;
  name = codes "demo";
  networks = [];
  services = [];
  rules = [];
}

abbrev demo_run : Run
demo_run = record {
  pids = (codes "db", pos 7) ∷ [];
  virtiofsd_pids = [];
  proxy_pids = [];
  statuses = [];
}

running-HasDistinctKeys : HasDistinctKeys running.services
unfolding lookup
running-HasDistinctKeys = (refl, tt)

-- The stack has `web` and `db`, and this run started `db` only.
build_store_example :
    lookup
      (codes "web")
      (build_store (λ n. n) (λ a b. b) no_services demo demo_run [] running).services
    ≡ (if has (codes "web") demo.services
        then built
            (λ n. n)
            (λ a b. b)
            no_services
            demo_run
            []
            running.services
            (codes "web")
            (lookup (codes "web") demo.services)
        else gone (lookup (codes "web") running.services))
build_store_example =
    lookup-build_store (λ n. n) (λ a b. b) no_services demo demo_run [] running (codes "web")
      running-HasDistinctKeys
