-- ===== src/Config/Defaults.antt =====
-- internal/config/load.go: `applyDefaults`.
use microbe.Base.{
  ◌≡◌, refl, ℤ, pos, int_eq, Option, none, some, List, [], ◌∷◌, map, Text, codes, text_eq, Map,
  if◌then◌else◌, arith,
}
use microbe.Config.Schema.{Volume, Healthcheck, Service, Compose}

abbrev pub current_schema_version : ℤ
current_schema_version = pos 1

-- `if s == "" { s = d }`
unfoldable pub default_text : Text → Text → Text
default_text [] d = d
default_text (c ∷ cs) d = c ∷ cs

-- `if n == 0 { n = d }`
unfoldable pub default_int : ℤ → ℤ → ℤ
default_int n d = if int_eq n (pos 0) then d else n

unfoldable pub default_volume_type : Volume → Volume
default_volume_type v = record v { type = default_text v.type (codes "share") }

unfoldable pub default_volume_fields : Volume → Volume
default_volume_fields v =
    if text_eq v.type (codes "share")
    then record v {
      mode = default_text v.mode (codes "rw");
      protocol = default_text v.protocol (codes "virtiofs");
    }
    else if text_eq v.type (codes "disk")
    then record v { fs_type = default_text v.fs_type (codes "ext4") }
    else v

unfoldable pub default_volume : Volume → Volume
unfolding default_volume_type default_volume_fields
default_volume v = default_volume_fields (default_volume_type v)

unfoldable pub default_healthcheck : Option Healthcheck → Option Healthcheck
default_healthcheck none = none
default_healthcheck (some hc) = some (record hc {
  interval = default_text hc.interval (codes "5s");
  timeout = default_text hc.timeout (codes "2s");
  start_period = default_text hc.start_period (codes "10s");
})

unfoldable pub default_service : Service → Service
default_service s = record s {
  vcpus = default_int s.vcpus (pos 1);
  mem = default_int s.mem (pos 512);
  hypervisor = default_text s.hypervisor (codes "cloud-hypervisor");
  os = default_text s.os (codes "nixos");
  volumes = map default_volume s.volumes;
  healthcheck = default_healthcheck s.healthcheck;
}

unfoldable pub default_services : Map Service → Map Service
default_services [] = []
default_services ((name, s) ∷ rest) = (name, default_service s) ∷ default_services rest

unfoldable pub apply_defaults : Compose → Compose
apply_defaults c = record c {
  schema_version = default_int c.schema_version current_schema_version;
  services = default_services c.services;
}

default_text_idem : (s d : Text) → default_text (default_text s d) d ≡ default_text s d
unfolding default_text
default_text_idem [] [] = refl
default_text_idem [] (x ∷ d) = refl
default_text_idem (c ∷ cs) d = refl

default_int_idem : (n d : ℤ) → default_int (default_int n d) d ≡ default_int n d
unfolding default_int
default_int_idem n d = ground arith

default_volume_idem : (v : Volume) → default_volume (default_volume v) ≡ default_volume v
unfolding default_volume
default_volume_idem v = ground (
  arith,
  default_text_idem v.type (codes "share"),
  default_text_idem v.mode (codes "rw"),
  default_text_idem v.protocol (codes "virtiofs"),
  default_text_idem v.fs_type (codes "ext4"),
)

default_healthcheck_idem :
    (h : Option Healthcheck) → default_healthcheck (default_healthcheck h) ≡ default_healthcheck h
unfolding default_healthcheck
default_healthcheck_idem none = refl
default_healthcheck_idem (some hc) =
    rw
      (
        default_text_idem hc.interval (codes "5s"),
        default_text_idem hc.timeout (codes "2s"),
        default_text_idem hc.start_period (codes "10s"),
      )
      refl

map-default_volume_idem :
    (vs : List Volume) → map default_volume (map default_volume vs) ≡ map default_volume vs
map-default_volume_idem [] = refl
map-default_volume_idem (v ∷ vs) = cc (default_volume_idem v, map-default_volume_idem vs)

default_service_idem : (s : Service) → default_service (default_service s) ≡ default_service s
unfolding default_service
default_service_idem s =
    rw
      (
        default_int_idem s.vcpus (pos 1),
        default_int_idem s.mem (pos 512),
        default_text_idem s.hypervisor (codes "cloud-hypervisor"),
        default_text_idem s.os (codes "nixos"),
        map-default_volume_idem s.volumes,
        default_healthcheck_idem s.healthcheck,
      )
      refl

default_services_idem :
    (m : Map Service) → default_services (default_services m) ≡ default_services m
unfolding default_services
default_services_idem [] = refl
default_services_idem ((name, s) ∷ rest) = cc (default_service_idem s, default_services_idem rest)

-- Filling in the defaults of a document that has them changes nothing.
pub apply_defaults_idem : (c : Compose) → apply_defaults (apply_defaults c) ≡ apply_defaults c
unfolding apply_defaults
apply_defaults_idem c =
    rw (default_int_idem c.schema_version current_schema_version, default_services_idem c.services)
      refl
