-- ===== src/Config/Tests.antt =====
-- Small documents, and the theorems on them.
use microbe.Base.{
  ◌≡◌, ◌≢◌, refl, ◌↔◌, true, ◌⊎◌, none, List, [], ◌∷◌, Text, codes, text_eq, All, Distinct, Map,
  lookup, insert, keys, pos, ok, err, each_result,
}
use microbe.Config.Schema.{Service, Compose}
use microbe.Config.Errors.{depends_on_cycle}
use microbe.Config.Defaults.{apply_defaults}
use microbe.Config.Filled.{Filled, apply_defaults-Filled}
use microbe.Config.Graph.{
  Chain, deps_of, visit_dep, visit_deps, visit, visit_root, visit_roots, detect_cycle, check_dep,
  validate_depends_on,
}
use microbe.Config.Graph.Declared.{validate_depends_on-acyclic}
use microbe.Config.Graph.Cycles.{AllDeclared}
use microbe.Config.Graph.Decides.{detect_cycle_decides}
use microbe.Config.Validate.{validate_ports}
use microbe.Config.Published.{host_ports, validate_ports_iff}

abbrev service : List Text → List Text → Service
service depends_on ports = record {
  vcpus = pos 1;
  mem = pos 512;
  hypervisor = [];
  os = [];
  config_present = true;
  volumes = [];
  networks = [];
  ports = ports;
  depends_on = depends_on;
  healthcheck = none;
}

abbrev services : Map Service
services =
    (codes "web", service (codes "db" ∷ []) (codes "8080:80" ∷ []))
    ∷ (codes "db", service [] (codes "127.0.0.1:5432:5432/tcp" ∷ []))
    ∷ []

depends_on_ok : validate_depends_on services ≡ ok tt
unfolding validate_depends_on each_result check_dep detect_cycle visit_roots visit_root visit
    visit_deps visit_dep deps_of lookup insert keys text_eq
depends_on_ok = refl

services_declared : AllDeclared services
services_declared = (validate_depends_on-acyclic services depends_on_ok).0

acyclic_example : AllDeclared services × ((n : Text) → ¬ (Chain services n n))
acyclic_example = validate_depends_on-acyclic services depends_on_ok

decides_example :
    ((detect_cycle services ≡ ok tt) × ((n : Text) → ¬ (Chain services n n)))
    ⊎ ((path : List Text) × (n : Text) × (detect_cycle services ≡ err (depends_on_cycle path))
        × Chain services n n)
decides_example = detect_cycle_decides services services_declared

ports_example :
    (validate_ports services ≡ ok tt)
    ↔ (All (λ h. h ≢ []) (host_ports services) × Distinct (host_ports services))
ports_example = validate_ports_iff services

abbrev bare : Compose
bare = record {
  schema_version = pos 0;
  name = codes "demo";
  networks = [];
  services = services;
  rules = [];
}

defaults_example :
    Filled bare (apply_defaults bare) × (apply_defaults (apply_defaults bare) ≡ apply_defaults bare)
defaults_example = apply_defaults-Filled bare
