-- ===== src/Config/Compose.antt =====
-- internal/config/validate.go: `validateHealthchecks`, and `Validate` as a whole.
use microbe.Base.{
  not, Option, none, some, [], ◌∷◌, Text, length, Map, keys, Result, ok, err, ◌>>◌, reject_if,
  each_result, ℤ, int_eq, ◌==◌,
}
use microbe.Config.Schema.{Healthcheck, Service, Compose}
use microbe.Config.Errors.{
  ConfigError, unsupported_schema_version, invalid_stack_name, network_required,
  invalid_network_name, invalid_service_name, healthcheck_port_range, invalid_healthcheck,
}
use microbe.Config.Defaults.{current_schema_version}
use microbe.Config.Names.{name_ok}
use microbe.Config.Ports.{in_port_range}
use microbe.Config.Parsers.{Parsers}
use microbe.Config.Graph.{validate_depends_on}
use microbe.Config.Validate.{
  check_os, validate_attaches, validate_rules, validate_ports, validate_volumes,
}

module _ (p : Parsers) where
  unfoldable pub check_duration : Text → Text → Option ℤ → Result ConfigError (Unit {0})
  check_duration svc_name value none = err (invalid_healthcheck svc_name value)
  check_duration svc_name value (some d) = ok tt

  -- The range over the three fields is over a map: which of several errors is reported is open in Go.
  unfoldable pub check_healthcheck : Text → Option Healthcheck → Result ConfigError (Unit {0})
  check_healthcheck svc_name none = ok tt
  check_healthcheck svc_name (some hc) =
      reject_if (not (in_port_range hc.port)) (healthcheck_port_range svc_name hc.port)
      >> each_result (λ (value : Text). check_duration svc_name value (p.parse_duration value))
          (hc.interval ∷ hc.timeout ∷ hc.start_period ∷ [])

  unfoldable pub validate_healthchecks : Map Service → Result ConfigError (Unit {0})
  validate_healthchecks =
      each_result (λ (entry : Text × Service). check_healthcheck entry.0 entry.1.healthcheck)

  -- The parts of `Validate` in their order; the first error is returned.
  unfoldable pub validate : Compose → Result ConfigError (Unit {0})
  validate c =
      reject_if (not (int_eq c.schema_version current_schema_version))
        (unsupported_schema_version c.schema_version)
      >> (reject_if (not (name_ok c.name)) (invalid_stack_name c.name)
          >> (reject_if (length c.networks == 0) network_required
              >> (each_result (λ (n : Text). reject_if (not (name_ok n)) (invalid_network_name n))
                    (keys c.networks)
                  >> (each_result
                        (λ (n : Text). reject_if (not (name_ok n)) (invalid_service_name n))
                        (keys c.services)
                      >> (validate_attaches p c.networks c.services
                          >> (validate_ports c.services
                              >> (validate_depends_on c.services
                                  >> (validate_volumes c.services
                                      >> (validate_healthchecks c.services
                                          >> (each_result check_os c.services
                                              >> validate_rules c.services c.rules))))))))))
