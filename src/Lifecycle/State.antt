-- ===== src/Lifecycle/State.antt =====
-- internal/state/store.go: the persisted state of a stack, and the migration of the format of before.
-- The JSON text is Go's library's: a file is taken as what `json.Unmarshal` reads from it.
use microbe.Base.{ℤ, Bool, List, [], ◌∷◌, Text, Map, keys, sort_texts}

-- `ServiceState`
pub record ServiceState : Type 0 where
  pub id : Text
  pub addr : Text
  pub networks : List Text
  pub cid : ℤ
  pub macs : Map Text
  pub volumes : List Text
  pub status : Text
  pub pid : ℤ
  pub runner : Text
  pub virtiofsd_pid : ℤ
  pub stale : Bool

-- `PortState`
pub record PortState : Type 0 where
  pub service : Text
  pub guest : ℤ
  pub proxy_pid : ℤ

-- `Store`; a nil map or slice is an empty one.
pub record Store : Type 0 where
  pub stack : Text
  pub networks : List Text
  pub services : Map ServiceState
  pub ports : Map PortState
  pub provisioned : List Text

-- `&Store{}`, what `Load` returns for a missing file.
abbrev pub empty_store : Store
empty_store = record { stack = []; networks = []; services = []; ports = []; provisioned = [] }

-- The structs that `migrateV0` reads; of the networks it uses the names only.
pub record V0Service : Type 0 where
  pub ip : Map Text
  pub cid : ℤ
  pub macs : Map Text
  pub volumes : List Text
  pub status : Text
  pub pid : ℤ
  pub runner : Text
  pub virtiofsd_pid : ℤ
  pub stale : Bool

pub record V0Store : Type 0 where
  pub stack : Text
  pub networks : Map Text
  pub services : Map V0Service
  pub ports : Map PortState
  pub provisioned : List Text

unfoldable pub migrate_service : V0Service → ServiceState
migrate_service s = record {
  id = [];
  addr = [];
  networks = sort_texts (keys s.ip);
  cid = s.cid;
  macs = s.macs;
  volumes = s.volumes;
  status = s.status;
  pid = s.pid;
  runner = s.runner;
  virtiofsd_pid = s.virtiofsd_pid;
  stale = s.stale;
}

unfoldable pub migrate_services : Map V0Service → Map ServiceState
unfolding migrate_service
migrate_services [] = []
migrate_services ((name, s) ∷ rest) = (name, migrate_service s) ∷ migrate_services rest

-- `migrateV0`
unfoldable pub migrate_v0 : V0Store → Store
unfolding migrate_services
migrate_v0 raw = record {
  stack = raw.stack;
  networks = sort_texts (keys raw.networks);
  services = migrate_services raw.services;
  ports = raw.ports;
  provisioned = raw.provisioned;
}
