-- ===== src/Lifecycle/Build.antt =====
-- `buildStore` of internal/cmd/lifecycle.go: the state that a run of up leaves.
use microbe.Base.{
  ℤ, pos, int_lt, true, false, Option, none, some, List, [], ◌∷◌, Text, codes, text_eq, length, Map,
  lookup, insert, has, keys, or_else, if◌then◌else◌, ◌==◌, Result, ok, err, itoa, sort_texts,
}
use microbe.Config.Schema.{Volume, Service, Compose}
use microbe.Lifecycle.Stack.{StackService, Stack}
use microbe.Lifecycle.State.{ServiceState, PortState, Store}
use microbe.Lifecycle.Specs.{SpecError, parse_port, ports_in}
use microbe.Lifecycle.Statuses.{status_running, status_stopped}

unfoldable pub disk_names : List Volume → List Text
disk_names [] = []
disk_names (v ∷ volumes) =
    let rest = disk_names volumes in if text_eq v.type (codes "disk") then v.name ∷ rest else rest

abbrev pub volumes_in : Option Service → List Volume
volumes_in none = []
volumes_in (some s) = s.volumes

-- What the run recorded: the pids of the VMs, of virtiofsd and of the port proxies that it started,
-- and the outcome of the health checks.
pub record Run : Type 0 where
  pub pids : Map ℤ
  pub virtiofsd_pids : Map ℤ
  pub proxy_pids : Map ℤ
  pub statuses : Map Text

-- `m[k]` of a `map[string]int`.
unfoldable pub int_at : Text → Map ℤ → ℤ
int_at k m = or_else (lookup k m) (pos 0)

unfoldable pub status_of : Run → Text → Text
unfolding int_at
status_of run name =
    or_else (lookup name run.statuses)
      (if int_lt (pos 0) (int_at name run.pids) then status_running else status_stopped)

-- The identity of a service: the one that was recorded, or `fresh` if there is none.
abbrev recorded_id : Option ServiceState → Text
recorded_id none = []
recorded_id (some s) = s.id

unfoldable pub id_of : Map ServiceState → (fresh : Text → Text) → Text → Text
id_of prev fresh name =
    let known = recorded_id (lookup name prev) in if length known == 0 then fresh name else known

-- `store.Ports[strconv.Itoa(host)] = ...`, if the mapping can be read.
unfoldable pub put_port : Run → Text → Map PortState → Result SpecError (ℤ × ℤ) → Map PortState
unfolding int_at
put_port run name ports (err e) = ports
put_port run name ports (ok (host, guest)) =
    insert (itoa host)
      (record { service = name; guest = guest; proxy_pid = int_at (itoa host) run.proxy_pids })
      ports

unfoldable pub put_mappings : Run → Text → Map PortState → List Text → Map PortState
unfolding put_port parse_port
put_mappings run name ports [] = ports
put_mappings run name ports (mapping ∷ mappings) =
    put_mappings run name (put_port run name ports (parse_port mapping)) mappings

unfoldable pub put_ports : Run → Map Service → Map PortState → List Text → Map PortState
unfolding put_mappings
put_ports run services ports [] = ports
put_ports run services ports (name ∷ names) =
    put_ports run services (put_mappings run name ports (ports_in (lookup name services))) names

-- The loop over `prev.Services`.
unfoldable pub carry_over : Map ServiceState → Map ServiceState → Map ServiceState
carry_over services [] = services
carry_over services ((name, s) ∷ prev) =
    carry_over
      (if has name services then services else insert name (record s { stale = true }) services)
      prev

-- `fresh` is the identity that `NewID` draws for a service, and `join` is `filepath.Join`.
module _ (fresh : Text → Text) (join : Text → Text → Text) where
  unfoldable pub service_state :
      Compose → Run → Text → Map ServiceState → Text → StackService → ServiceState
  unfolding status_of int_at id_of disk_names
  service_state cfg run runner_dir prev name s = record {
    id = id_of prev fresh name;
    addr = s.addr;
    networks = s.networks;
    cid = pos s.cid;
    macs = s.macs;
    volumes = disk_names (volumes_in (lookup name cfg.services));
    status = status_of run name;
    pid = int_at name run.pids;
    runner = join runner_dir name;
    virtiofsd_pid = int_at name run.virtiofsd_pids;
    stale = false;
  }

  abbrev put_state :
      Compose
      → Run
      → Text
      → Map ServiceState
      → Text
      → Option StackService
      → Map ServiceState
      → Map ServiceState
  put_state cfg run runner_dir prev name none services = services
  put_state cfg run runner_dir prev name (some s) services =
      insert name (service_state cfg run runner_dir prev name s) services

  unfoldable pub service_states :
      Compose → Stack → Run → Text → Map ServiceState → List Text → Map ServiceState
  unfolding service_state
  service_states cfg st run runner_dir prev [] = []
  service_states cfg st run runner_dir prev (name ∷ names) =
      put_state cfg run runner_dir prev name (lookup name st.services)
        (service_states cfg st run runner_dir prev names)

  -- `buildStore`
  unfoldable pub build_store : Compose → Stack → Run → Text → Store → Store
  unfolding service_states carry_over put_ports
  build_store cfg st run runner_dir prev = record {
    stack = cfg.name;
    networks = sort_texts (keys cfg.networks);
    services =
        carry_over
          (service_states cfg st run runner_dir prev.services (sort_texts (keys st.services)))
          prev.services;
    ports = put_ports run cfg.services [] (sort_texts (keys st.services));
    provisioned = [];
  }
