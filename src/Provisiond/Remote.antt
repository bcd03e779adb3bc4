-- ===== src/Provisiond/Remote.antt =====
-- The client's calls through the daemon do what the operations do: internal/provisiond/client.go
-- against internal/provisiond/protocol.go.
use microbe.Base.{
  ◌≡◌, refl, false, List, Text, text_eq, length, ◌==◌, Result, ok, err, Action, and_then, continue,
}
use microbe.Provisiond.Specs.{NetSpec, TapSpec, PortSpec, RuleSpec}
use microbe.Provisiond.Protocol.{
  Request, Response, Ops, no_prefix_of, run_method, respond, dispatch,
}
use microbe.Provisiond.Client.{ClientError, daemon_error, call_resp, call, blank}
use microbe.Provisiond.Client

-- What the caller sees of an outcome: the error comes back as the daemon's.
abbrev pub seen : {World A : Type 0} → Result Text A × World → Result ClientError A × World
seen (ok a, w) = (ok a, w)
seen (err e, w) = (err (daemon_error e), w)

module _ {World : Type 0} (quote : Text → Text) (ops : Ops World) where
  -- A connection that delivers requests and responses.
  unfoldable pub through_daemon : Request → Action World ClientError Response
  through_daemon req world = (ok (dispatch quote ops req world).0, (dispatch quote ops req world).1)

  -- The operation never fails with an empty message.
  abbrev pub Loud : {A : Type 0} → Action World Text A → Type 0
  Loud m = (w w' : World) (e : Text) → m w ≡ (err e, w') → (length e == 0) ≡ false

  call_of :
      (req : Request) (m : Action World Text (Unit {0})) (w : World)
      (r : Result Text (Unit {0}) × World)
      → Loud m
      → run_method quote ops req w ≡ no_prefix_of quote ops m w
      → m w ≡ r
      → call through_daemon req w ≡ seen (m w)
  unfolding call call_resp through_daemon dispatch respond no_prefix_of and_then continue
  call_of req m w (ok a, w') loud q e = rw q (rw e refl)
  call_of req m w (err x, w') loud q e = rw q (rw e (rw (loud w w' x e) refl))

  -- Whatever its arguments, no operation fails with an empty message.
  pub record AllLoud : Type 0 where
    pub ensure_networks :
        (stack : Text) (nets : List NetSpec) → Loud (ops.ensure_networks stack nets)
    pub ensure_taps : (taps : List TapSpec) → Loud (ops.ensure_taps taps)
    pub apply_ports : (ports : List PortSpec) → Loud (ops.apply_ports ports)
    pub teardown_networks :
        (stack : Text) (nets : List NetSpec) → Loud (ops.teardown_networks stack nets)
    pub teardown_taps : (taps : List TapSpec) → Loud (ops.teardown_taps taps)
    pub teardown_ports : (ports : List PortSpec) → Loud (ops.teardown_ports ports)
    pub teardown_links : (links : List Text) → Loud (ops.teardown_links links)
    pub ensure_prefix : Loud ops.ensure_prefix
    pub apply_rules : (rules : List RuleSpec) → Loud (ops.apply_rules rules)
    pub teardown_rules : (rules : List RuleSpec) → Loud (ops.teardown_rules rules)

  prefix_of :
      (w : World) (r : Result Text Text × World)
      → Loud ops.ensure_prefix
      → ops.ensure_prefix w ≡ r
      → Client.ensure_prefix through_daemon w ≡ seen (ops.ensure_prefix w)
  unfolding Client.ensure_prefix call_resp through_daemon dispatch respond run_method and_then
      continue text_eq
  prefix_of w (ok a, w') loud e = rw e refl
  prefix_of w (err x, w') loud e = rw e (rw (loud w w' x e) refl)

  -- Each call of the client does to the host what the operation of that name does, and returns its
  -- value or its message, where requests and responses are delivered and no operation fails with
  -- an empty message.
  pub client-eq-ops :
      (loud : AllLoud) (stack : Text) (nets : List NetSpec) (taps : List TapSpec)
      (ports : List PortSpec) (links : List Text) (rules : List RuleSpec) (w : World)
      → (Client.ensure_networks through_daemon stack nets w
          ≡ seen (ops.ensure_networks stack nets w))
        × (Client.ensure_taps through_daemon taps w ≡ seen (ops.ensure_taps taps w))
        × (Client.apply_ports through_daemon ports w ≡ seen (ops.apply_ports ports w))
        × (Client.teardown_networks through_daemon stack nets w
            ≡ seen (ops.teardown_networks stack nets w))
        × (Client.teardown_taps through_daemon taps w ≡ seen (ops.teardown_taps taps w))
        × (Client.teardown_ports through_daemon ports w ≡ seen (ops.teardown_ports ports w))
        × (Client.teardown_links through_daemon links w ≡ seen (ops.teardown_links links w))
        × (Client.ensure_prefix through_daemon w ≡ seen (ops.ensure_prefix w))
        × (Client.apply_rules through_daemon rules w ≡ seen (ops.apply_rules rules w))
        × (Client.teardown_rules through_daemon rules w ≡ seen (ops.teardown_rules rules w))
  unfolding Client.ensure_networks Client.ensure_taps Client.apply_ports Client.teardown_networks
      Client.teardown_taps Client.teardown_ports Client.teardown_links Client.apply_rules
      Client.teardown_rules run_method text_eq
  client-eq-ops loud stack nets taps ports links rules w = (
    call_of _ (ops.ensure_networks stack nets) w _ (loud.ensure_networks stack nets) refl refl,
    call_of _ (ops.ensure_taps taps) w _ (loud.ensure_taps taps) refl refl,
    call_of _ (ops.apply_ports ports) w _ (loud.apply_ports ports) refl refl,
    call_of _ (ops.teardown_networks stack nets) w _ (loud.teardown_networks stack nets) refl refl,
    call_of _ (ops.teardown_taps taps) w _ (loud.teardown_taps taps) refl refl,
    call_of _ (ops.teardown_ports ports) w _ (loud.teardown_ports ports) refl refl,
    call_of _ (ops.teardown_links links) w _ (loud.teardown_links links) refl refl,
    prefix_of w _ loud.ensure_prefix refl,
    call_of _ (ops.apply_rules rules) w _ (loud.apply_rules rules) refl refl,
    call_of _ (ops.teardown_rules rules) w _ (loud.teardown_rules rules) refl refl,
  )
