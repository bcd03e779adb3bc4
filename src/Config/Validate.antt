-- ===== src/Config/Validate.antt =====
-- internal/config/validate.go: `Validate` and its parts, the search for cycles apart.
use microbe.Base.{
  ℕ, ◌+◌, Bool, false, ◌&&◌, ◌||◌, not, Option, none, some, List, [], ◌∷◌, Text, codes, text_eq,
  length, contains, Map, lookup, insert, has, or_else, has_prefix, if◌then◌else◌, Result, ok, err,
  ◌>>=◌, ◌>>◌, reject_if, fold_result, ℤ, pos, int_eq, ◌==◌,
}
use microbe.Config.Schema.{Rule, Volume, Attach, Service, Network}
use microbe.Config.Errors.{
  ConfigError, unknown_os, unknown_network, invalid_addr, addr_not_ipv6, conflicting_addrs,
  duplicate_addr, unknown_from, unknown_to, self_rule, unknown_proto, rule_port_range,
  duplicate_rule, invalid_port_mapping, duplicate_host_port, disk_missing_name, duplicate_disk,
  disk_owner, share_missing_name, duplicate_share, unknown_protocol, unknown_volume_type,
  target_not_absolute, duplicate_target,
}
use microbe.Config.Ports.{host_port, in_port_range}
use microbe.Config.Parsers.{Addr, is6, Parsers}

abbrev Entry : Type 0
Entry = Text × Service

-- `validateOS`
unfoldable pub check_os : Entry → Result ConfigError (Unit {0})
check_os (name, svc) =
    reject_if (not (text_eq svc.os (codes "nixos") || text_eq svc.os (codes "finix")))
      (unknown_os name svc.os)

module _ (p : Parsers) where
  -- The address of an attachment that states one: `netip.ParseAddr`, then `Is6`.
  unfoldable pub check_addr : Text → Text → Option Addr → Result ConfigError (Unit {0})
  check_addr svc_name addr none = err (invalid_addr svc_name addr)
  check_addr svc_name addr (some a) = reject_if (not (is6 a)) (addr_not_ipv6 svc_name addr)

  -- One attachment; the state is `svcAddr`, the address that the service's attachments agree on.
  unfoldable pub check_attach : Map Network → Text → Text → Attach → Result ConfigError Text
  check_attach networks svc_name svc_addr attach =
      reject_if (not (has attach.name networks)) (unknown_network svc_name attach.name)
      >> (if length attach.addr == 0
          then ok svc_addr
          else (check_addr svc_name attach.addr (p.parse_addr attach.addr)
              >> (reject_if (not (length svc_addr == 0) && not (text_eq attach.addr svc_addr))
                    (conflicting_addrs svc_name svc_addr attach.addr)
                  >> ok attach.addr)))

  -- The service's address goes into `staticAddrs`, unless it has none or another service has it.
  unfoldable pub claim_addr : Text → Map Text → Text → Result ConfigError (Map Text)
  claim_addr svc_name static_addrs svc_addr =
      if length svc_addr == 0 then ok static_addrs else elim (lookup svc_addr static_addrs) [
        | none ↦ ok (insert svc_addr svc_name static_addrs)
        | some prev ↦ err (duplicate_addr svc_addr prev svc_name)
      ]

  unfoldable pub check_service_addr : Map Network → Map Text → Entry → Result ConfigError (Map Text)
  check_service_addr networks static_addrs (svc_name, svc) =
      fold_result (check_attach networks svc_name) [] svc.networks
      >>= claim_addr svc_name static_addrs

  unfoldable pub validate_attaches : Map Network → Map Service → Result ConfigError (Unit {0})
  validate_attaches networks services =
      fold_result (check_service_addr networks) [] services >>= λ addrs. ok tt

-- `type key struct` of `validateRules`.
pub record RuleKey : Type 0 where
  pub from : Text
  pub to : Text
  pub proto : Text
  pub port : ℤ

unfoldable pub rule_key_eq : RuleKey → RuleKey → Bool
rule_key_eq a b =
    text_eq a.from b.from && text_eq a.to b.to && text_eq a.proto b.proto && int_eq a.port b.port

unfoldable pub seen_key : RuleKey → List RuleKey → Bool
seen_key k [] = false
seen_key k (j ∷ js) = rule_key_eq k j || seen_key k js

-- One port of a rule; 0 stands for all ports.
unfoldable pub check_rule_port : ℕ → Rule → List RuleKey → ℤ → Result ConfigError (List RuleKey)
unfolding seen_key rule_key_eq
check_rule_port i r seen port =
    let k : RuleKey = record { from = r.from; to = r.to; proto = r.proto; port = port } in
    reject_if (not (int_eq port (pos 0)) && not (in_port_range port)) (rule_port_range i port)
    >> (reject_if (seen_key k seen) (duplicate_rule i) >> ok (k ∷ seen))

-- `ports`, or 0 alone where the rule lists none.
abbrev pub ports_or_all : List ℤ → List ℤ
ports_or_all [] = pos 0 ∷ []
ports_or_all (port ∷ ports) = port ∷ ports

abbrev pub known_proto : Text → Bool
known_proto proto = length proto == 0 || text_eq proto (codes "tcp") || text_eq proto (codes "udp")

-- One rule; the state is its index and the keys that were seen.
unfoldable pub check_rule :
    Map Service → ℕ × List RuleKey → Rule → Result ConfigError (ℕ × List RuleKey)
unfolding check_rule_port
check_rule services (i, seen) r =
    reject_if (not (has r.from services)) (unknown_from i r.from)
    >> (reject_if (not (has r.to services)) (unknown_to i r.to)
        >> (reject_if (text_eq r.from r.to) (self_rule i r.from)
            >> (reject_if (not (known_proto r.proto)) (unknown_proto i r.proto)
                >> (fold_result (check_rule_port i r) seen (ports_or_all r.ports) >>= λ seen'.
                    ok (i + 1, seen')))))

unfoldable pub validate_rules : Map Service → List Rule → Result ConfigError (Unit {0})
unfolding check_rule
validate_rules services rules = fold_result (check_rule services) (0, []) rules >>= λ s. ok tt

-- One port mapping; the state maps a host port to the service that publishes it.
unfoldable pub check_mapping : Text → Map Text → Text → Result ConfigError (Map Text)
check_mapping svc_name seen mapping =
    let host = host_port mapping in
    if length host == 0
    then err (invalid_port_mapping svc_name mapping)
    else elim (lookup host seen) [
      | none ↦ ok (insert host svc_name seen)
      | some prev ↦ err (duplicate_host_port host prev svc_name)
    ]

unfoldable pub check_service_ports : Map Text → Entry → Result ConfigError (Map Text)
check_service_ports seen (svc_name, svc) = fold_result (check_mapping svc_name) seen svc.ports

unfoldable pub validate_ports : Map Service → Result ConfigError (Unit {0})
validate_ports services = fold_result check_service_ports [] services >>= λ seen. ok tt

-- The maps of `validateVolumes`: the disks of all services, and a service's targets and shares.
pub record VolumesSeen : Type 0 where
  pub disk_names : Map Text
  pub targets : List Text
  pub share_names : List Text

unfoldable pub check_disk : Text → VolumesSeen → Volume → Result ConfigError VolumesSeen
check_disk svc_name s v =
    reject_if (length v.name == 0) (disk_missing_name svc_name)
    >> (reject_if (has v.name s.disk_names)
          (duplicate_disk v.name (or_else (lookup v.name s.disk_names) []) svc_name)
        >> (reject_if (not (length v.owner == 0)) (disk_owner svc_name v.name)
            >> ok (record s { disk_names = insert v.name svc_name s.disk_names })))

unfoldable pub check_share : Text → VolumesSeen → Volume → Result ConfigError VolumesSeen
check_share svc_name s v =
    reject_if (length v.name == 0) (share_missing_name svc_name)
    >> (reject_if (contains v.name s.share_names) (duplicate_share svc_name v.name)
        >> (reject_if
              (not (text_eq v.protocol (codes "9p") || text_eq v.protocol (codes "virtiofs")))
              (unknown_protocol svc_name v.protocol)
            >> ok (record s { share_names = v.name ∷ s.share_names })))

-- The `switch v.Type`.
unfoldable pub check_type : Text → VolumesSeen → Volume → Result ConfigError VolumesSeen
check_type svc_name s v =
    if text_eq v.type (codes "disk")
    then check_disk svc_name s v
    else if text_eq v.type (codes "share")
    then check_share svc_name s v
    else err (unknown_volume_type svc_name v.type)

unfoldable pub check_volume : Text → VolumesSeen → Volume → Result ConfigError VolumesSeen
check_volume svc_name s v = check_type svc_name s v >>= λ s'.
    reject_if (not (has_prefix v.target (codes "/"))) (target_not_absolute svc_name v.target)
    >> (reject_if (contains v.target s'.targets) (duplicate_target svc_name v.target)
        >> ok (record s' { targets = v.target ∷ s'.targets }))

-- A service starts with no targets and no shares, and passes on the disks.
unfoldable pub check_service_volumes : Map Text → Entry → Result ConfigError (Map Text)
check_service_volumes disk_names (svc_name, svc) =
    fold_result (check_volume svc_name)
      (record { disk_names = disk_names; targets = []; share_names = [] }) svc.volumes
    >>= λ s. ok s.disk_names

unfoldable pub validate_volumes : Map Service → Result ConfigError (Unit {0})
validate_volumes services = fold_result check_service_volumes [] services >>= λ disks. ok tt
