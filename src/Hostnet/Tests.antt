-- ===== src/Hostnet/Tests.antt =====
-- A plan for one service, and the theorems on it.
use microbe.Base.{
  ◌≤◌, ◌≡◌, refl, true, false, none, some, [], ◌∷◌, ◌++◌, Text, codes, text_eq, text_lt, length,
  replicate, lookup, insert, keys, has, pos, ok, fold_result, sort_texts, sort, insert_sorted,
}
use microbe.Config.Schema.{Service, Compose}
use microbe.Config.Parsers.{v6}
use microbe.Hostnet.Prefix.{masked, random_addr}
use microbe.Hostnet.Names.{bridge_name, tap_id, device_names_fit, max_if_name_len}
use microbe.Hostnet.Plan.{
  Lock, NetworkPlan, static_addr, first_addr, Source, fresh_addr, allocate_dynamic, allocate_addr,
  parse_lock_prefix, allocate_addrs, allocate_macs, plan,
}
use microbe.Hostnet.Stable.{Settled}
use microbe.Hostnet.Permanent.{plan_addresses, plan_again}

-- Addresses are printed as their bytes; every random byte is 7.
abbrev sevens : Source
sevens = record {
  parse_prefix = λ text. some (record { addr = v6 (replicate 16 253); bits = 64 });
  print_addr = λ bytes. bytes;
  rand = λ svc n. some (replicate n 7);
}

abbrev web : Service
web = record {
  vcpus = pos 1;
  mem = pos 512;
  hypervisor = [];
  os = [];
  config_present = true;
  volumes = [];
  networks = record { name = codes "net"; addr = [] } ∷ [];
  ports = [];
  depends_on = [];
  healthcheck = none;
}

abbrev stack : Compose
stack = record {
  schema_version = pos 1;
  name = codes "demo";
  networks = (codes "net", record { internal = false }) ∷ [];
  services = (codes "web", web) ∷ [];
  rules = [];
}

abbrev first_lock : Lock
first_lock = record { prefix = codes "fd"; services = [] }

abbrev web_addr : Text
web_addr = replicate 8 253 ++ replicate 8 7

abbrev second_lock : Lock
second_lock = record { prefix = codes "fd"; services = (codes "web", web_addr) ∷ [] }

abbrev first_plan : NetworkPlan
first_plan = record { addrs = (codes "web", web_addr) ∷ []; macs = allocate_macs stack.services }

planned : plan sevens stack first_lock ≡ ok (first_plan, second_lock)
unfolding plan allocate_addrs parse_lock_prefix fold_result allocate_addr allocate_dynamic
    fresh_addr random_addr masked static_addr first_addr lookup insert keys sort_texts sort
    insert_sorted text_eq text_lt
planned = refl

again_example :
    plan (record sevens { rand = λ svc n. none }) stack second_lock ≡ ok (first_plan, second_lock)
again_example = plan_again sevens stack first_lock second_lock first_plan planned (λ svc n. none)

has_web : has (codes "web") stack.services ≡ true
unfolding lookup text_eq
has_web = refl

addresses_example :
    (v : Text) × (lookup (codes "web") first_plan.addrs ≡ some v)
    × Settled stack.services second_lock.services (codes "web") v
    × ((w : Text) → Settled stack.services first_lock.services (codes "web") w → v ≡ w)
addresses_example =
    plan_addresses sevens stack first_lock second_lock first_plan planned (codes "web") has_web

names_example :
    (length (bridge_name (λ t. t) (codes "a-long-stack-name")) ≤ max_if_name_len)
    × (length (tap_id (λ t. t) (codes "a-long-stack-name") (codes "web") (codes "net"))
        ≤ max_if_name_len)
names_example = device_names_fit (λ t. t) (codes "a-long-stack-name") (codes "web") (codes "net")
