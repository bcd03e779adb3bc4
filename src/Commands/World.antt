-- ===== src/Commands/World.antt =====
-- What up and down change on the host, and what they ask of it: `resolvePlan`, `provisionHost` and
-- `teardownHost` of internal/cmd/lifecycle.go.
use microbe.Base.{
  ℕ, Bool, ℤ, Option, none, some, List, [], ◌∷◌, ◌++◌, Text, length, if◌then◌else◌, ◌==◌, Result,
  ok, err, Action, return, fail, and_then,
}
use microbe.Config.Schema.{Compose}
use microbe.Hostnet.Prefix.{Prefix, AddrError, bad_prefix}
use microbe.Hostnet.Plan.{Lock, NetworkPlan, Source, plan}
use microbe.Provisiond.Specs.{NetSpec, TapSpec, PortSpec, RuleSpec}
use microbe.Lifecycle.Stack.{Stack, from_config}
use microbe.Lifecycle.State.{Store}
use microbe.Lifecycle.Specs.{SpecError}
use microbe.Lifecycle.Order.{OrderError}

-- One call: of the daemon, of internal/runtime, or of the file system.
pub data Call : Type 0 where
  ensure_networks teardown_networks : Text → List NetSpec → Call
  ensure_taps teardown_taps : List TapSpec → Call
  apply_ports teardown_ports : List PortSpec → Call
  apply_rules teardown_rules : List RuleSpec → Call
  teardown_links : List Text → Call
  build_runner : Text → Call
  ensure_volume : (name size fs_type : Text) → Call
  start_virtiofsd start_service : Text → Call
  wait_for_socket : (service socket : Text) → Call
  start_port_forwarder : (host : ℤ) (guest_ip : Text) (guest : ℤ) → Call
  stop_service : ℤ → Call
  clean_run_dir remove_snapshots : Text → Call
  remove_volume : Text → Call
  load_lock save_lock load_state save_state write_stack : Call

-- The committed lock, the stack's state file, and the calls that were made so far.
pub record World : Type 0 where
  pub lock : Lock
  pub saved : Store
  pub calls : List Call

pub data CommandError : Type 0 where
  outside : Text → CommandError
  bad_address : AddrError → CommandError
  bad_port : SpecError → CommandError
  bad_order : OrderError → CommandError
  no_service no_service_in_state unhealthy : Text → CommandError

abbrev pub Command : Type 0 → Type 0
Command A = Action World CommandError A

-- The host's answers, which may depend on all that was done before: a call returns a value, the pid of
-- what it started, or fails. `prefix` is the outcome of the daemon's EnsurePrefix, and `healthy` that of
-- a health probe.
pub record Outside : Type 0 where
  pub answer : World → Call → Result Text ℤ
  pub prefix : World → Result Text Text
  pub healthy : World → Text → Result Text Bool

unfoldable pub answered : Result Text ℤ → Command ℤ
answered (ok n) = return n
answered (err e) = fail (outside e)

unfoldable pub lift_addr : {A : Type 0} → Result AddrError A → Command A
lift_addr (ok a) = return a
lift_addr (err e) = fail (bad_address e)

unfoldable pub lift_port : {A : Type 0} → Result SpecError A → Command A
lift_port (ok a) = return a
lift_port (err e) = fail (bad_port e)

unfoldable pub lift_order : {A : Type 0} → Result OrderError A → Command A
lift_order (ok a) = return a
lift_order (err e) = fail (bad_order e)

unfoldable pub ensured : Result Text Text → Command Text
ensured (ok prefix) = return prefix
ensured (err e) = fail (outside e)

unfoldable pub stack_of :
    (Text → Text) → (List ℕ → Text) → Compose → NetworkPlan → Text → Option Prefix → Command Stack
stack_of sha256 print_addr cfg p prefix none = fail (bad_address (bad_prefix prefix))
stack_of sha256 print_addr cfg p prefix (some q) = return (from_config sha256 print_addr cfg p q)

module _ (out : Outside) where
  -- A call is recorded, whether it succeeds or not.
  unfoldable pub ask : Call → Command ℤ
  unfolding answered
  ask call w = answered (out.answer w call) (record w { calls = w.calls ++ call ∷ [] })

  -- A call that a dry run prints in place of making it.
  unfoldable pub ask_unless : Bool → Call → Command ℤ
  unfolding ask
  ask_unless dry_run call = if dry_run then return (ℤ.pos 0) else ask call

  -- `provisionHost`
  unfoldable pub provision_host :
      Bool → Text → List NetSpec → List TapSpec → List PortSpec → Command ℤ
  unfolding ask_unless
  provision_host dry_run stack nets taps ports =
      and_then (ask_unless dry_run (ensure_networks stack nets)) λ _.
        and_then (ask_unless dry_run (ensure_taps taps)) λ _. ask_unless dry_run (apply_ports ports)

  -- `teardownHost`
  unfoldable pub teardown_host :
      Bool → Text → List NetSpec → List TapSpec → List PortSpec → Command ℤ
  unfolding ask_unless
  teardown_host dry_run stack nets taps ports =
      and_then (ask_unless dry_run (teardown_ports ports)) λ _.
        and_then (ask_unless dry_run (teardown_taps taps))
          λ _. ask_unless dry_run (teardown_networks stack nets)

  -- The lock with its prefix: its own, or the daemon's.
  unfoldable pub with_prefix : Lock → Command Lock
  unfolding ensured
  with_prefix lock w =
      (if length lock.prefix == 0
          then and_then (ensured (out.prefix w))
              (λ prefix. return (record lock { prefix = prefix }))
          else return lock)
        w

  unfoldable pub save_lock_file : Lock → Command ℤ
  unfolding ask
  save_lock_file lock = and_then (ask save_lock) λ n w. (ok n, record w { lock = lock })

  -- `resolvePlan`
  unfoldable pub resolve_plan : Source → Compose → Command (NetworkPlan × Text)
  unfolding with_prefix save_lock_file ask lift_addr
  resolve_plan source cfg = and_then (ask load_lock) λ _ w.
      and_then (with_prefix w.lock)
        (λ lock.
          and_then (lift_addr (plan source cfg lock)) λ planned.
            and_then (save_lock_file planned.1) λ _. return (planned.0, planned.1.prefix))
        w

  -- `resolvePlan` and `FromConfig`, the beginning of every command that needs addresses.
  unfoldable pub resolve_stack : (Text → Text) → Source → Compose → Command Stack
  unfolding resolve_plan stack_of
  resolve_stack sha256 source cfg = and_then (resolve_plan source cfg) λ resolved.
      stack_of sha256 source.print_addr cfg resolved.0 resolved.1 (source.parse_prefix resolved.1)

  -- `store.Save`
  unfoldable pub save : Store → Command ℤ
  unfolding ask
  save store = and_then (ask save_state) λ n w. (ok n, record w { saved = store })
