-- ===== src/Provisiond/Client.antt =====
-- internal/provisiond/client.go: the calls of the command-line side.
use microbe.Base.{List, [], Text, length, if◌then◌else◌, ◌==◌, Action, return, fail, and_then}
use microbe.Provisiond.Specs.{NetSpec, TapSpec, PortSpec, RuleSpec}
use microbe.Provisiond.Protocol.{Request, Response}
use microbe.Provisiond.Method

pub data ClientError : Type 0 where
  send_failed : Text → ClientError
  read_failed : Text → ClientError
  daemon_error : Text → ClientError

-- `exchange` sends a request and decodes the answer.
module _ {World : Type 0} (exchange : Request → Action World ClientError Response) where
  -- `callResp`
  unfoldable pub call_resp : Request → Action World ClientError Response
  call_resp req =
      and_then (exchange req)
        λ resp. if length resp.error == 0 then return resp else fail (daemon_error resp.error)

  unfoldable pub call : Request → Action World ClientError (Unit {0})
  call req = and_then (call_resp req) (λ _. return tt)

  abbrev pub blank : Text → Request
  blank method = record {
    method = method;
    stack = [];
    nets = [];
    taps = [];
    ports = [];
    links = [];
    rules = [];
  }

  unfoldable pub ensure_networks : Text → List NetSpec → Action World ClientError (Unit {0})
  ensure_networks stack nets =
      call (record (blank Method.ensure_networks) { stack = stack; nets = nets })

  unfoldable pub ensure_taps : List TapSpec → Action World ClientError (Unit {0})
  ensure_taps taps = call (record (blank Method.ensure_taps) { taps = taps })

  unfoldable pub apply_ports : List PortSpec → Action World ClientError (Unit {0})
  apply_ports ports = call (record (blank Method.apply_ports) { ports = ports })

  unfoldable pub teardown_networks : Text → List NetSpec → Action World ClientError (Unit {0})
  teardown_networks stack nets =
      call (record (blank Method.teardown_networks) { stack = stack; nets = nets })

  unfoldable pub teardown_taps : List TapSpec → Action World ClientError (Unit {0})
  teardown_taps taps = call (record (blank Method.teardown_taps) { taps = taps })

  unfoldable pub teardown_ports : List PortSpec → Action World ClientError (Unit {0})
  teardown_ports ports = call (record (blank Method.teardown_ports) { ports = ports })

  unfoldable pub teardown_links : List Text → Action World ClientError (Unit {0})
  teardown_links links = call (record (blank Method.teardown_links) { links = links })

  unfoldable pub ensure_prefix : Action World ClientError Text
  ensure_prefix = and_then (call_resp (blank Method.ensure_prefix)) (λ resp. return resp.prefix)

  unfoldable pub apply_rules : List RuleSpec → Action World ClientError (Unit {0})
  apply_rules rules = call (record (blank Method.apply_rules) { rules = rules })

  unfoldable pub teardown_rules : List RuleSpec → Action World ClientError (Unit {0})
  teardown_rules rules = call (record (blank Method.teardown_rules) { rules = rules })
