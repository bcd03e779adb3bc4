-- ===== src/Runtime/Poll.antt =====
-- The polling loops of `WaitForSocket` of internal/runtime/runner.go and of internal/cmd/health.go.
use microbe.Base.{
  ℕ, zero, suc, ◌+◌, ltb, Bool, true, false, ℤ, pos, negsuc, itoa, Option, none, some, Text,
  if◌then◌else◌, Result, ok, err, ◌>>=◌,
}
use microbe.Config.Schema.{Healthcheck}

-- `time.Now().After(start.Add(budget))`, at the time `now`.
unfoldable pub passed : ℕ → ℤ → ℕ → Bool
passed start (pos budget) now = ltb (start + budget) now
passed start (negsuc n) now = ltb start (now + suc n)

-- The world of a loop: its clock in nanoseconds, the wait of `time.Sleep`, whether a path is a Unix
-- socket, and an attempt to connect, which takes its time.
pub record Clock (S : Type 0) : Type 0 where
  pub now : S → ℕ
  pub sleep : ℕ → S → S
  pub is_socket : Text → S → Bool
  pub dial : Text → ℤ → S → Bool × S

pub data PollError : Type 0 where
  timed_out : Text → PollError
  invalid_duration : Text → PollError
  out_of_rounds : PollError

module _ {S : Type 0} where
  -- Test, and if it fails and the budget is not spent, pause and test again; `none` where the fuel is
  -- spent, which a theorem excludes.
  unfoldable pub poll : (S → Bool × S) → (S → Bool) → (S → S) → ℕ → S → Option Bool × S
  poll test spent pause zero s = (none, s)
  poll test spent pause (suc fuel) s =
      let again = poll test spent pause fuel (pause (test s).1) in
      if (test s).0
      then (some true, (test s).1)
      else if spent (test s).1
      then (some false, (test s).1)
      else again

  module _ (clock : Clock S) where
    -- A duration that is not positive is no wait.
    unfoldable pub sleep_for : ℤ → S → S
    sleep_for (pos n) s = clock.sleep n s
    sleep_for (negsuc n) s = s

    abbrev socket_result : Text → Option Bool × S → Result PollError (Unit {0}) × S
    socket_result path (none, s) = (err out_of_rounds, s)
    socket_result path (some true, s) = (ok tt, s)
    socket_result path (some false, s) = (err (timed_out path), s)

    -- `WaitForSocket`
    unfoldable pub wait_for_socket : ℕ → Text → ℤ → ℤ → S → Result PollError (Unit {0}) × S
    unfolding poll sleep_for passed
    wait_for_socket fuel path interval timeout s = socket_result path (
        poll (λ t. (clock.is_socket path t, t)) (λ t. passed (clock.now s) timeout (clock.now t))
          (sleep_for interval) fuel s)

    -- `waitHealthy`
    unfoldable pub wait_healthy : ℕ → Text → ℤ → ℤ → ℤ → S → Option Bool × S
    unfolding poll sleep_for passed
    wait_healthy fuel addr dial_timeout interval budget s =
        poll (clock.dial addr dial_timeout) (λ t. passed (clock.now s) budget (clock.now t))
          (sleep_for interval) fuel s

    unfoldable pub parsed : Option ℤ → Text → Result PollError ℤ
    parsed none text = err (invalid_duration text)
    parsed (some d) text = ok d

    -- `probeHealth`; `parse_duration` is `time.ParseDuration`, and `join_host_port` is
    -- `net.JoinHostPort`.
    unfoldable pub probe_health :
        (Text → Option ℤ)
        → (Text → Text → Text)
        → ℕ
        → Healthcheck
        → Text
        → S
        → Result PollError (Option Bool × S)
    unfolding parsed wait_healthy
    probe_health parse_duration join_host_port fuel hc ip s =
        parsed (parse_duration hc.interval) hc.interval >>= λ interval.
        parsed (parse_duration hc.timeout) hc.timeout >>= λ timeout.
        parsed (parse_duration hc.start_period) hc.start_period >>= λ start_period.
        ok (wait_healthy fuel (join_host_port ip (itoa hc.port)) timeout interval start_period s)
