-- ===== src/Lifecycle/Specs.antt =====
-- internal/cmd/lifecycle.go: the specs that up and down send to the daemon.
use microbe.Base.{
  Bool, false, not, ◌&&◌, ◌||◌, ℤ, pos, int_lt, atoi, Option, none, some, List, [], ◌∷◌, ◌++◌, Text,
  codes, length, contains, Map, lookup, keys, or_else, if◌then◌else◌, ◌==◌, Result, ok, err, ◌>>=◌,
  fold_result, sort, sort_texts,
}
use microbe.Config.Schema.{Rule, Service, Compose}
use microbe.Config.Ports.{split, in_port_range}
use microbe.Config.Validate.{ports_or_all}
use microbe.Hostnet.Names.{bridge_name}
use microbe.Hostnet.Plan.{Pair, pair_lt}
use microbe.Provisiond.Specs.{NetSpec, TapSpec, PortSpec, RuleSpec}
use microbe.Lifecycle.Stack.{StackService, Stack}

pub data SpecError : Type 0 where
  bad_mapping : Text → SpecError

unfoldable pub parse_field : Text → Text → Result SpecError ℤ
parse_field mapping field = elim (atoi field) [
  | none ↦ err (bad_mapping mapping)
  | some n ↦ if in_port_range n then ok n else err (bad_mapping mapping)
]

unfoldable pub parse_fields : Text → List Text → Result SpecError (ℤ × ℤ)
unfolding parse_field
parse_fields mapping (host ∷ guest ∷ []) =
    parse_field mapping host >>= λ h. parse_field mapping guest >>= λ g. ok (h, g)
parse_fields mapping _ = err (bad_mapping mapping)

-- `parsePort`
unfoldable pub parse_port : Text → Result SpecError (ℤ × ℤ)
unfolding parse_fields split
parse_port mapping = parse_fields mapping (split b':' mapping)

-- `netSpecs`: the bridge's addresses, from any service that has a network.
unfoldable pub net_specs : Map StackService → List NetSpec
net_specs [] = []
net_specs ((name, s) ∷ rest) =
    let others = net_specs rest in
    if length s.networks == 0
    then others
    else record { gateway = s.gateway; prefix = pos s.prefix } ∷ []

-- A service that is not selected has a network.
unfoldable pub still_used : List Text → Map StackService → Bool
still_used selected [] = false
still_used selected ((name, s) ∷ rest) =
    (not (contains name selected) && not (length s.networks == 0)) || still_used selected rest

-- `netSpecsForTeardown`
unfoldable pub net_specs_for_teardown : Map StackService → List Text → List NetSpec
unfolding still_used net_specs
net_specs_for_teardown services selected =
    if still_used selected services then [] else net_specs services

abbrev addr_in : Option StackService → Text
addr_in none = []
addr_in (some s) = s.addr

unfoldable pub rule_specs_of : Map StackService → Rule → List ℤ → List RuleSpec
rule_specs_of services r [] = []
rule_specs_of services r (port ∷ ports) =
    record {
      from = addr_in (lookup r.from services);
      to = addr_in (lookup r.to services);
      proto = if length r.proto == 0 then codes "tcp" else r.proto;
      port = port;
    }
    ∷ rule_specs_of services r ports

-- `ruleSpecs`
unfoldable pub rule_specs : List Rule → Map StackService → List RuleSpec
unfolding rule_specs_of
rule_specs [] services = []
rule_specs (r ∷ rules) services =
    rule_specs_of services r (ports_or_all r.ports) ++ rule_specs rules services

unfoldable pub net_pairs : Text → List Text → List Pair
net_pairs svc [] = []
net_pairs svc (net ∷ nets) = (svc, net) ∷ net_pairs svc nets

unfoldable pub selected_pairs : List Text → Map StackService → List Pair
unfolding net_pairs
selected_pairs selected [] = []
selected_pairs selected ((name, s) ∷ rest) =
    let others = selected_pairs selected rest in
    if contains name selected then net_pairs name s.networks ++ others else others

abbrev tap_in : Option StackService → Text → Text
tap_in none net = []
tap_in (some s) net = or_else (lookup net s.taps) []

abbrev vcpus_above_one : Option Service → Bool
vcpus_above_one none = false
vcpus_above_one (some s) = int_lt (pos 1) s.vcpus

-- `cfg`, the user's and the group's id are the caller's; a nil document has no services.
module _ (sha256 : Text → Text) (cfg_services : Map Service) (uid gid : ℤ) where
  unfoldable pub tap_spec : Stack → Pair → TapSpec
  tap_spec st (svc, net) = record {
    name = tap_in (lookup svc st.services) net;
    bridge = bridge_name sha256 st.name;
    owner = uid;
    group = gid;
    multi_queue = vcpus_above_one (lookup svc cfg_services);
  }

  unfoldable pub tap_specs_of : Stack → List Pair → List TapSpec
  unfolding tap_spec
  tap_specs_of st [] = []
  tap_specs_of st (pair ∷ pairs) = tap_spec st pair ∷ tap_specs_of st pairs

  -- `tapSpecs`
  unfoldable pub tap_specs : Stack → List Text → List TapSpec
  unfolding tap_specs_of selected_pairs
  tap_specs st selected = tap_specs_of st (sort pair_lt (selected_pairs selected st.services))

abbrev pub ports_in : Option Service → List Text
ports_in none = []
ports_in (some s) = s.ports

unfoldable pub port_spec : Text → List PortSpec → Text → Result SpecError (List PortSpec)
unfolding parse_port
port_spec addr specs mapping = parse_port mapping >>= λ ports.
    ok (specs ++ record { host_port = ports.0; guest_ip = addr; guest_port = ports.1 } ∷ [])

unfoldable pub service_port_specs :
    Compose → Stack → List Text → List PortSpec → Text → Result SpecError (List PortSpec)
unfolding port_spec
service_port_specs cfg st selected specs name =
    if contains name selected
    then fold_result (port_spec (addr_in (lookup name st.services))) specs
        (ports_in (lookup name cfg.services))
    else ok specs

-- `portSpecs`
unfoldable pub port_specs : Compose → Stack → List Text → Result SpecError (List PortSpec)
unfolding service_port_specs
port_specs cfg st selected =
    fold_result (service_port_specs cfg st selected) [] (sort_texts (keys st.services))
