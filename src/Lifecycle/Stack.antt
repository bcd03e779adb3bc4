-- ===== src/Lifecycle/Stack.antt =====
-- internal/nix/flakegen/stack.go: the stack that is rendered from a document and its network plan.
use microbe.Base.{
  ℕ, ◌+◌, Bool, Option, none, some, List, [], ◌∷◌, ◌++◌, Text, codes, text_eq, Map, lookup, insert,
  keys, or_else, if◌then◌else◌, sort_texts,
}
use microbe.Config.Schema.{Attach, Network, Service, Compose}
use microbe.Hostnet.Prefix.{Prefix, v6_gateway}
use microbe.Hostnet.Names.{tap_id}
use microbe.Hostnet.Plan.{NetworkPlan}

-- `flakegen.Service`, with the fields that the commands read.
pub record StackService : Type 0 where
  pub cid : ℕ
  pub os : Text
  pub networks : List Text
  pub macs : Map Text
  pub addr : Text
  pub gateway : Text
  pub prefix : ℕ
  pub taps : Map Text
  pub build_target : Text

-- `flakegen.Stack`
pub record Stack : Type 0 where
  pub name : Text
  pub services : Map StackService
  pub internal : Map Bool

unfoldable pub build_target_of : Text → Text → Text
build_target_of name os =
    if text_eq os (codes "finix")
    then codes ".#finixConfigurations." ++ (name ++ codes ".config.microbe.qemuRunner")
    else codes ".#nixosConfigurations." ++ (name ++ codes ".config.microvm.declaredRunner")

unfoldable pub declared_nets : List Attach → List Text
declared_nets [] = []
declared_nets (a ∷ attaches) = a.name ∷ declared_nets attaches

abbrev pub first_guest_cid : ℕ
first_guest_cid = 3

abbrev attaches_of : Option Service → List Attach
attaches_of none = []
attaches_of (some s) = s.networks

abbrev os_of : Option Service → Text
os_of none = []
os_of (some s) = s.os

unfoldable pub internal_of : Map Network → Map Bool
internal_of [] = []
internal_of ((name, net) ∷ rest) = insert name net.internal (internal_of rest)

-- `sha256` is SHA-256, and `print_addr` is `Addr.String`.
module _ (sha256 : Text → Text) (print_addr : List ℕ → Text) where
  unfoldable pub tap_ids : Text → Text → List Text → Map Text
  unfolding tap_id
  tap_ids stack svc [] = []
  tap_ids stack svc (net ∷ nets) = insert net (tap_id sha256 stack svc net) (tap_ids stack svc nets)

  unfoldable pub stack_service : Compose → NetworkPlan → Prefix → ℕ → Text → StackService
  unfolding declared_nets tap_ids build_target_of v6_gateway
  stack_service cfg plan p i name = record {
    cid = i + first_guest_cid;
    os = os_of (lookup name cfg.services);
    networks = declared_nets (attaches_of (lookup name cfg.services));
    macs = or_else (lookup name plan.macs) [];
    addr = or_else (lookup name plan.addrs) [];
    gateway = print_addr (v6_gateway p);
    prefix = p.bits;
    taps = tap_ids cfg.name name (declared_nets (attaches_of (lookup name cfg.services)));
    build_target = build_target_of name (os_of (lookup name cfg.services));
  }

  unfoldable pub stack_services : Compose → NetworkPlan → Prefix → ℕ → List Text → Map StackService
  unfolding stack_service
  stack_services cfg plan p i [] = []
  stack_services cfg plan p i (name ∷ names) =
      insert name (stack_service cfg plan p i name) (stack_services cfg plan p (i + 1) names)

  -- `FromConfig`, with the host's prefix parsed.
  unfoldable pub from_config : Compose → NetworkPlan → Prefix → Stack
  unfolding stack_services internal_of
  from_config cfg plan p = record {
    name = cfg.name;
    services = stack_services cfg plan p 0 (sort_texts (keys cfg.services));
    internal = internal_of cfg.networks;
  }
