-- ===== src/Provisiond/Protocol.antt =====
-- internal/provisiond/protocol.go, server.go and client.go: requests and responses, the daemon's
-- dispatch and its connection loop, and the client's calls.
use microbe.Base.{
  Option, none, some, List, [], ◌∷◌, ◌++◌, Text, codes, text_eq, if◌then◌else◌, Result, ok, err,
  Action, return, fail, and_then,
}
use microbe.Provisiond.Method
use microbe.Provisiond.Specs.{NetSpec, TapSpec, PortSpec, RuleSpec}

pub record Request : Type 0 where
  pub method : Text
  pub stack : Text
  pub nets : List NetSpec
  pub taps : List TapSpec
  pub ports : List PortSpec
  pub links : List Text
  pub rules : List RuleSpec

pub record Response : Type 0 where
  pub error : Text
  pub prefix : Text

-- The interface `Ops`; an error is its text.
pub record Ops (World : Type 0) : Type 0 where
  pub ensure_networks : Text → List NetSpec → Action World Text (Unit {0})
  pub ensure_taps : List TapSpec → Action World Text (Unit {0})
  pub apply_ports : List PortSpec → Action World Text (Unit {0})
  pub teardown_networks : Text → List NetSpec → Action World Text (Unit {0})
  pub teardown_taps : List TapSpec → Action World Text (Unit {0})
  pub teardown_ports : List PortSpec → Action World Text (Unit {0})
  pub teardown_links : List Text → Action World Text (Unit {0})
  pub ensure_prefix : Action World Text Text
  pub apply_rules : List RuleSpec → Action World Text (Unit {0})
  pub teardown_rules : List RuleSpec → Action World Text (Unit {0})

-- `quote` is Go's `%q`.
module _ {World : Type 0} (quote : Text → Text) (ops : Ops World) where
  -- An operation that returns no prefix.
  unfoldable pub no_prefix_of : Action World Text (Unit {0}) → Action World Text Text
  no_prefix_of m = and_then m (λ _. return [])

  -- The switch of `dispatch`, with the prefix that the response gets.
  unfoldable pub run_method : Request → Action World Text Text
  run_method req =
      if text_eq req.method Method.ensure_networks
      then no_prefix_of (ops.ensure_networks req.stack req.nets)
      else if text_eq req.method Method.ensure_taps
      then no_prefix_of (ops.ensure_taps req.taps)
      else if text_eq req.method Method.apply_ports
      then no_prefix_of (ops.apply_ports req.ports)
      else if text_eq req.method Method.teardown_networks
      then no_prefix_of (ops.teardown_networks req.stack req.nets)
      else if text_eq req.method Method.teardown_taps
      then no_prefix_of (ops.teardown_taps req.taps)
      else if text_eq req.method Method.teardown_ports
      then no_prefix_of (ops.teardown_ports req.ports)
      else if text_eq req.method Method.teardown_links
      then no_prefix_of (ops.teardown_links req.links)
      else if text_eq req.method Method.ensure_prefix
      then ops.ensure_prefix
      else if text_eq req.method Method.apply_rules
      then no_prefix_of (ops.apply_rules req.rules)
      else if text_eq req.method Method.teardown_rules
      then no_prefix_of (ops.teardown_rules req.rules)
      else fail (codes "provisiond: unknown method " ++ quote req.method)

  unfoldable pub respond : Result Text Text → Response
  respond (ok prefix) = record { error = []; prefix = prefix }
  respond (err e) = record { error = e; prefix = [] }

  -- `dispatch`: the response that it encodes, and the state that the operation left.
  unfoldable pub dispatch : Request → World → Response × World
  unfolding run_method respond
  dispatch req world = (respond (run_method req world).0, (run_method req world).1)

  -- What `dec.Decode` finds next on a connection.
  pub data Incoming : Type 0 where
    request : Request → Incoming
    eof : Incoming
    malformed : Text → Incoming

  abbrev error_response : Text → Response
  error_response e = record { error = e; prefix = [] }

  -- `encode_error` is the outcome of writing a response to the connection. A response that could not
  -- be written is followed by the attempt to write the error.
  unfoldable pub written : (Response → Option Text) → Response → List Response
  written encode_error resp = elim (encode_error resp) [
    | none ↦ resp ∷ []
    | some e ↦ elim (encode_error (error_response e)) [
      | none ↦ error_response e ∷ []
      | some e' ↦ []
    ]
  ]

  unfoldable pub write_error : (Response → Option Text) → Text → List Response
  write_error encode_error e = elim (encode_error (error_response e)) [
    | none ↦ error_response e ∷ []
    | some e' ↦ []
  ]

  -- `handle`: the responses that a connection gets, until its end or a request that cannot be decoded.
  unfoldable pub handle : (Response → Option Text) → List Incoming → World → List Response × World
  unfolding written write_error dispatch
  handle encode_error [] world = ([], world)
  handle encode_error (eof ∷ rest) world = ([], world)
  handle encode_error (malformed e ∷ rest) world =
      (write_error encode_error (codes "provisiond: decode request: " ++ e), world)
  handle encode_error (request req ∷ rest) world =
      let (resp, world') = dispatch req world in
      let (more, last) = handle encode_error rest world' in
      (written encode_error resp ++ more, last)
