-- ===== src/Config/Errors.antt =====
-- The errors of internal/config/validate.go, one constructor for each `fmt.Errorf`.
use microbe.Base.{ℕ, ℤ, Text, List}

pub data ConfigError : Type 0 where
  unsupported_schema_version : ℤ → ConfigError
  invalid_stack_name : Text → ConfigError
  network_required : ConfigError
  invalid_network_name : Text → ConfigError
  invalid_service_name : Text → ConfigError
  unknown_os : Text → Text → ConfigError
  unknown_network : Text → Text → ConfigError
  invalid_addr : Text → Text → ConfigError
  addr_not_ipv6 : Text → Text → ConfigError
  conflicting_addrs : Text → Text → Text → ConfigError
  duplicate_addr : Text → Text → Text → ConfigError
  unknown_from : ℕ → Text → ConfigError
  unknown_to : ℕ → Text → ConfigError
  self_rule : ℕ → Text → ConfigError
  unknown_proto : ℕ → Text → ConfigError
  rule_port_range : ℕ → ℤ → ConfigError
  duplicate_rule : ℕ → ConfigError
  invalid_port_mapping : Text → Text → ConfigError
  duplicate_host_port : Text → Text → Text → ConfigError
  depends_on_itself : Text → ConfigError
  unknown_depends_on : Text → Text → ConfigError
  depends_on_cycle : List Text → ConfigError
  cycle_out_of_fuel : ConfigError  -- of the model: no run meets it
  disk_missing_name : Text → ConfigError
  duplicate_disk : Text → Text → Text → ConfigError
  disk_owner : Text → Text → ConfigError
  share_missing_name : Text → ConfigError
  duplicate_share : Text → Text → ConfigError
  unknown_protocol : Text → Text → ConfigError
  unknown_volume_type : Text → Text → ConfigError
  target_not_absolute : Text → Text → ConfigError
  duplicate_target : Text → Text → ConfigError
  healthcheck_port_range : Text → ℤ → ConfigError
  invalid_healthcheck : Text → Text → ConfigError
