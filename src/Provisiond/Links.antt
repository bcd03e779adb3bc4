-- ===== src/Provisiond/Links.antt =====
-- internal/provisiond/netops.go: bridges and taps over netlink. The host's links are a parameter.
use microbe.Base.{
  ℕ, Bool, true, false, not, ◌||◌, to_uint32, itoa, Option, none, some, List, ◌∷◌, ◌++◌, Text,
  if◌then◌else◌, ◌==◌, Result, ok, err, Action, return, and_then, each, ignoring_error,
}
use microbe.Hostnet.Names.{bridge_name}
use microbe.Provisiond.Specs.{NetSpec, TapSpec}

-- The flags of a tap that the code sets or reads.
pub record TapFlags : Type 0 where
  pub no_pi : Bool
  pub vnet_hdr : Bool
  pub multi_queue : Bool

-- `netlink.Tuntap` in tap mode
pub record Tuntap : Type 0 where
  pub name : Text
  pub owner : ℕ
  pub group : ℕ
  pub flags : TapFlags

pub data Link : Type 0 where
  bridge : Text → Link
  tuntap : Tuntap → Link
  other_link : Text → Link

-- What `LinkByName` answers: a link, `LinkNotFoundError`, or another error.
pub data Found : Type 0 where
  found : Link → Found
  not_found : Found
  lookup_failed : Text → Found

pub data LinkError : Type 0 where
  look_up : (name : Text) → Text → LinkError
  missing : (name : Text) → LinkError
  create : (name : Text) → Text → LinkError
  delete_stale : (name : Text) → Text → LinkError
  recreate : (name : Text) → Text → LinkError
  parse_addr_failed : Text → LinkError
  assign_addr : (name : Text) → Text → LinkError
  enslave : (name bridge : Text) → Text → LinkError
  bring_up : (name : Text) → Text → LinkError

-- What the code calls of the netlink package, on a host in some state.
pub record Netlink (Host : Type 0) : Type 0 where
  pub link_by_name : Host → Text → Found
  pub link_add : Host → Link → Result Text Host
  pub link_del : Host → Link → Result Text Host
  pub link_set_master : Host → Link → Link → Result Text Host
  pub link_set_up : Host → Link → Result Text Host
  pub parse_addr : Text → Option (List ℕ × ℕ)
  pub addr_replace : Host → Link → List ℕ × ℕ → Result Text Host

-- `tapLink`: `TUNTAP_MULTI_QUEUE_DEFAULTS` is the multi-queue flag with no-pi.
unfoldable pub tap_link : TapSpec → Tuntap
tap_link spec = record {
  name = spec.name;
  owner = to_uint32 spec.owner;
  group = to_uint32 spec.group;
  flags =
      if spec.multi_queue
      then record { no_pi = true; vnet_hdr = true; multi_queue = true }
      else record { no_pi = true; vnet_hdr = true; multi_queue = false };
}

abbrev pub differ : Bool → Bool → Bool
differ true b = not b
differ false b = b

-- `tapNeedsRecreate`
unfoldable pub tap_needs_recreate : TapSpec → Tuntap → Bool
tap_needs_recreate spec existing =
    not (existing.owner == to_uint32 spec.owner)
    || not (existing.group == to_uint32 spec.group)
    || differ existing.flags.multi_queue spec.multi_queue

-- The test on a link that was found: `!ok || tapNeedsRecreate(spec, tap)`.
unfoldable pub stale : TapSpec → Link → Bool
stale spec (bridge name) = true
stale spec (tuntap tap) = tap_needs_recreate spec tap
stale spec (other_link name) = true

module _ {Host : Type 0} (netlink : Netlink Host) (sha256 : Text → Text) where
  unfoldable pub link_call :
      (Host → Result Text Host) → (Text → LinkError) → Action Host LinkError (Unit {0})
  link_call f wrap host = elim (f host) [ ok host' ↦ (ok tt, host') | err e ↦ (err (wrap e), host) ]

  -- The bridge of that name: the one there is, else a new one.
  unfoldable pub bridge_or_create : Text → Action Host LinkError Link
  unfolding link_call
  bridge_or_create name host = elim (netlink.link_by_name host name) [
    | found link ↦ (ok link, host)
    | lookup_failed e ↦ (err (look_up name e), host)
    | not_found ↦
        and_then (link_call (λ h. netlink.link_add h (bridge name)) (create name))
          (λ _. return (bridge name)) host
  ]

  -- `netlink.ParseAddr(fmt.Sprintf("%s/%d", gateway, prefix))`
  unfoldable pub gateway_addr : NetSpec → Action Host LinkError (List ℕ × ℕ)
  gateway_addr spec host =
      let text = spec.gateway ++ b'/' ∷ itoa spec.prefix in
      elim (netlink.parse_addr text) [
        | some addr ↦ (ok addr, host)
        | none ↦ (err (parse_addr_failed text), host)
      ]

  -- One round of the loop of `EnsureNetworks`.
  unfoldable pub ensure_bridge : Text → NetSpec → Action Host LinkError (Unit {0})
  unfolding bridge_name
  ensure_bridge stack spec =
      let name = bridge_name sha256 stack in
      and_then (bridge_or_create name) λ link. and_then (gateway_addr spec) λ addr.
        and_then (link_call (λ h. netlink.addr_replace h link addr) (assign_addr name))
          λ _. link_call (λ h. netlink.link_set_up h link) (bring_up name)

  -- The loop of `EnsureNetworks`, which then calls `ensureForwardChain`.
  unfoldable pub ensure_bridges : Text → List NetSpec → Action Host LinkError (Unit {0})
  ensure_bridges stack = each (ensure_bridge stack)

  -- The tap of the spec: the one there is if it fits, else a new one.
  unfoldable pub tap_or_create : TapSpec → Action Host LinkError Link
  tap_or_create spec host = elim (netlink.link_by_name host spec.name) [
    | lookup_failed e ↦ (err (look_up spec.name e), host)
    | not_found ↦
        and_then (link_call (λ h. netlink.link_add h (tuntap (tap_link spec))) (create spec.name))
          (λ _. return (tuntap (tap_link spec))) host
    | found link ↦
        if stale spec link
        then and_then (link_call (λ h. netlink.link_del h link) (delete_stale spec.name))
            (λ _.
              and_then
                (link_call (λ h. netlink.link_add h (tuntap (tap_link spec))) (recreate spec.name))
                (λ _. return (tuntap (tap_link spec))))
            host
        else (ok link, host)
  ]

  unfoldable pub bridge_of : TapSpec → Action Host LinkError Link
  bridge_of spec host = elim (netlink.link_by_name host spec.bridge) [
    | found link ↦ (ok link, host)
    | not_found ↦ (err (missing spec.bridge), host)
    | lookup_failed e ↦ (err (look_up spec.bridge e), host)
  ]

  -- One round of the loop of `EnsureTaps`.
  unfoldable pub ensure_tap : TapSpec → Action Host LinkError (Unit {0})
  ensure_tap spec = and_then (tap_or_create spec) λ link. and_then (bridge_of spec) λ master.
      and_then
        (link_call (λ h. netlink.link_set_master h link master) (enslave spec.name spec.bridge))
        λ _. link_call (λ h. netlink.link_set_up h link) (bring_up spec.name)

  -- `EnsureTaps`
  unfoldable pub ensure_taps : List TapSpec → Action Host LinkError (Unit {0})
  ensure_taps = each ensure_tap

  -- `delLinkByName`
  unfoldable pub del_link_by_name : Text → Action Host LinkError (Unit {0})
  del_link_by_name name host = elim (netlink.link_by_name host name) [
    | found link ↦ link_call (λ h. netlink.link_del h link) (delete_stale name) host
    | not_found ↦ (err (missing name), host)
    | lookup_failed e ↦ (err (look_up name e), host)
  ]

  -- `TeardownLinks`
  unfoldable pub teardown_links : List Text → Action Host LinkError (Unit {0})
  teardown_links = each (λ name. ignoring_error (del_link_by_name name))

  -- `TeardownNetworks`
  unfoldable pub teardown_networks : Text → List NetSpec → Action Host LinkError (Unit {0})
  teardown_networks stack nets = ignoring_error (del_link_by_name (bridge_name sha256 stack))

  -- `TeardownTaps`
  unfoldable pub teardown_taps : List TapSpec → Action Host LinkError (Unit {0})
  teardown_taps = each (λ spec. ignoring_error (del_link_by_name spec.name))
