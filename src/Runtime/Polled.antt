-- ===== src/Runtime/Polled.antt =====
-- The polling loops of internal/runtime/runner.go and internal/cmd/health.go end, and how.
use microbe.Base.{
  ℕ, zero, suc, ◌+◌, ◌≤◌, ◌<◌, ◌≡◌, refl, Bool, true, false, Bool-cases, ◌⊎◌, inl, inr, ℤ, pos,
  Option, some, Text, ok, arith, itoa,
}
use microbe.Config.Schema.{Healthcheck}
use microbe.Runtime.Poll.{passed, Clock, poll, sleep_for, wait_healthy, parsed, probe_health}

module _ {S : Type 0} where
  -- The loop ended with a test that passed, or with one that failed when the budget was spent.
  abbrev pub IsSettled : (S → Bool × S) → (S → Type 0) → Option Bool × S → Type 0
  IsSettled test spent (r, t) =
      ((r ≡ some true) × ((u : S) × (test u ≡ (true, t))))
      ⊎ ((r ≡ some false) × spent t × ((u : S) × (test u ≡ (false, t))))

  pair_eq : (b : Bool) (p : Bool × S) → p.0 ≡ b → p ≡ (b, p.1)
  pair_eq b (c, s) e = rw e refl

  round-IsSettled :
      (test : S → Bool × S) (spent : S → Bool) (pause : S → S) (fuel : ℕ) (s : S)
      (late : S → Type 0)
      → ((t : S) → spent t ≡ true → late t)
      → (spent (test s).1 ≡ false
          → IsSettled test late (poll test spent pause fuel (pause (test s).1)))
      → IsSettled test late (poll test spent pause (suc fuel) s)
  unfolding poll
  round-IsSettled test spent pause fuel s late is_late later = elim (Bool-cases (test s).0) [
    | inl h ↦ rw h (inl (refl, (s, pair_eq true (test s) h)))
    | inr h ↦ rw h (elim (Bool-cases (spent (test s).1)) [
      | inl q ↦ rw q (inr (refl, is_late (test s).1 q, (s, pair_eq false (test s) h)))
      | inr q ↦ rw q (later q)
    ])
  ]

  -- Where a round takes some time and the budget ends at `limit`, a round for each unit of time that
  -- is left, and one more, is enough.
  poll-IsSettled :
      (now : S → ℕ) (limit : ℕ) (test : S → Bool × S) (spent : S → Bool) (pause : S → S)
      → ((s : S) → now s ≤ now (test s).1)
      → ((s : S) → now s + 1 ≤ now (pause s))
      → ((s : S) → spent s ≡ false → now s ≤ limit)
      → ((s : S) → spent s ≡ true → limit < now s)
      → (fuel : ℕ) (s : S) → limit < now s + fuel
      → IsSettled test (λ t. limit < now t) (poll test spent pause (suc fuel) s)
  poll-IsSettled now limit test spent pause keeps advances ends late zero s h =
      round-IsSettled test spent pause zero s (λ t. limit < now t) late
        λ q. absurd (omega (arith, h, keeps s, ends (test s).1 q))
  poll-IsSettled now limit test spent pause keeps advances ends late (suc fuel) s h =
      round-IsSettled test spent pause (suc fuel) s (λ t. limit < now t) late
        λ q.
          poll-IsSettled now limit test spent pause keeps advances ends late fuel (pause (test s).1)
            (omega (arith, h, keeps s, advances (test s).1))

  -- What Go documents of the clock: a wait takes at least its duration, and time does not go back.
  abbrev pub IsClock : Clock S → Type 0
  IsClock clock =
      ((d : ℕ) (s : S) → clock.now s + d ≤ clock.now (clock.sleep d s))
      × ((addr : Text) (timeout : ℤ) (s : S)
          → clock.now s ≤ clock.now (clock.dial addr timeout s).1)

  in_budget :
      (clock : Clock S) (start budget : ℕ) (s : S)
      → passed start (pos budget) (clock.now s) ≡ false
      → clock.now s ≤ start + budget
  unfolding passed
  in_budget clock start budget s h = ground (arith, h)

  over_budget :
      (clock : Clock S) (start budget : ℕ) (s : S)
      → passed start (pos budget) (clock.now s) ≡ true
      → start + budget < clock.now s
  unfolding passed
  over_budget clock start budget s h = ground (arith, h)

  wait_healthy-IsSettled :
      (clock : Clock S) (addr : Text) (dial_timeout : ℤ) (interval budget : ℕ) (s : S)
      → IsClock clock
      → 1 ≤ interval
      → IsSettled
          (clock.dial addr dial_timeout)
          (λ t. clock.now s + budget < clock.now t)
          (wait_healthy clock (suc (suc budget)) addr dial_timeout (pos interval) (pos budget) s)
  unfolding wait_healthy sleep_for
  wait_healthy-IsSettled clock addr dial_timeout interval budget s (sleeps, dials) h =
      poll-IsSettled clock.now (clock.now s + budget) (clock.dial addr dial_timeout)
        (λ t. passed (clock.now s) (pos budget) (clock.now t)) (clock.sleep interval)
        (dials addr dial_timeout) (λ t. omega (arith, sleeps interval t, h))
        (in_budget clock (clock.now s) budget) (over_budget clock (clock.now s) budget) (suc budget)
        s (omega arith)

  -- Where the clock behaves as documented and the durations are read, the interval positive and
  -- the start period not negative, probeHealth ends, within two rounds more than the start period
  -- has units: with a connection that was accepted, which makes the service healthy, or with one
  -- that failed, at a time when more than the start period had passed.
  pub probe_health-IsSettled :
      (clock : Clock S) (parse_duration : Text → Option ℤ) (join_host_port : Text → Text → Text)
      (hc : Healthcheck) (ip : Text) (interval budget : ℕ) (dial_timeout : ℤ) (s : S)
      → IsClock clock
      → 1 ≤ interval
      → parse_duration hc.interval ≡ some (pos interval)
      → parse_duration hc.timeout ≡ some dial_timeout
      → parse_duration hc.start_period ≡ some (pos budget)
      → (result : Option Bool × S) × (probe_health clock parse_duration join_host_port
            (suc (suc budget))
            hc
            ip
            s
          ≡ ok result)
        × IsSettled
            (clock.dial (join_host_port ip (itoa hc.port)) dial_timeout)
            (λ t. clock.now s + budget < clock.now t)
            result
  unfolding probe_health
  probe_health-IsSettled clock parse_duration join_host_port hc ip interval budget dial_timeout s
        ticks h i d b =
      (
        wait_healthy clock (suc (suc budget)) (join_host_port ip (itoa hc.port)) dial_timeout
            (pos interval) (pos budget) s,
        rw (i, d, b, parsed) refl,
        wait_healthy-IsSettled clock (join_host_port ip (itoa hc.port)) dial_timeout interval budget
            s ticks h,
      )
