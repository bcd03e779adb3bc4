-- ===== src/Runtime/Stopping.antt =====
-- `StopService` of internal/runtime/runner.go ends, and how.
use microbe.Base.{
  ℕ, zero, suc, ◌+◌, ◌*◌, ◌≤◌, ◌<◌, ◌≡◌, refl, ltb, ltb→lt, Bool, true, false, Bool-cases, ◌⊎◌, inl,
  inr, ℤ, pos, int_lt, Result, ok, err, arith,
}
use microbe.Runtime.Process.{
  process_alive, Host, sigterm, sigkill, poll_interval, stop_grace, StopError, context_done,
  await_exit, stop_service,
}

-- `time.After`: a wait of d that the context does not cut short ends when the clock has advanced by d,
-- or later.
abbrev pub Advances : {S : Type 0} → Host S → Type 0
Advances {S} host =
    (d : ℕ) (s : S) → (host.select d s).0 ≡ false → host.now s + d ≤ host.now (host.select d s).1

module _ {S : Type 0} (host : Host S) (pid : ℤ) where
  -- The process is not running; or it was running still behind the deadline, and was sent SIGKILL; or
  -- it was running within the deadline, the context was done during the wait that followed, and it was
  -- sent SIGKILL then.
  abbrev pub IsOver : ℕ → Result StopError (Unit {0}) × S → Type 0
  IsOver deadline (r, t) =
      ((r ≡ ok tt) × (process_alive (host.stat t pid) ≡ false))
      ⊎ ((u : S) × (process_alive (host.stat u pid) ≡ true)
          × (((r ≡ ok tt) × (deadline < host.now u) × (t ≡ host.signal pid sigkill u))
              ⊎ ((r ≡ err context_done)
                  × (host.now u ≤ deadline)
                  × ((v : S) × (host.select poll_interval u ≡ (true, v))
                      × (t ≡ host.signal pid sigkill v)))))

  in_time : (deadline now : ℕ) → ltb deadline now ≡ false → now ≤ deadline
  in_time deadline now h = ground (arith, h)

  pair_eq : (p : Bool × S) → p.0 ≡ true → p ≡ (true, p.1)
  pair_eq (b, s) e = rw e refl

  round-IsOver :
      (fuel deadline : ℕ) (s : S)
      → (ltb deadline (host.now s) ≡ false
          → (host.select poll_interval s).0 ≡ false
          → IsOver deadline (await_exit host pid fuel deadline (host.select poll_interval s).1))
      → IsOver deadline (await_exit host pid (suc fuel) deadline s)
  unfolding await_exit
  round-IsOver fuel deadline s later = elim (Bool-cases (process_alive (host.stat s pid))) [
    | inr dead ↦ rw dead (inl (refl, dead))
    | inl alive ↦ rw alive (elim (Bool-cases (ltb deadline (host.now s))) [
      | inl late ↦ rw late (inr (s, alive, inl (refl, ltb→lt deadline (host.now s) late, refl)))
      | inr early ↦ rw early (elim (Bool-cases (host.select poll_interval s).0) [
        | inl done ↦ rw done (
            inr (
              s,
              alive,
              inr (
                refl,
                in_time deadline (host.now s) early,
                ((host.select poll_interval s).1, pair_eq (host.select poll_interval s) done, refl),
              ),
            ))
        | inr goes_on ↦ rw goes_on (later early goes_on)
      ])
    ])
  ]

  -- A round for each interval that is left to the deadline, and one more, is enough.
  await_exit-IsOver :
      (fuel deadline : ℕ) (s : S)
      → Advances host
      → deadline < host.now s + fuel * poll_interval
      → IsOver deadline (await_exit host pid (suc fuel) deadline s)
  await_exit-IsOver zero deadline s advances h =
      round-IsOver zero deadline s λ early _. absurd (ground (arith, early, h))
  await_exit-IsOver (suc fuel) deadline s advances h =
      round-IsOver (suc fuel) deadline s λ early goes_on.
        await_exit-IsOver fuel deadline (host.select poll_interval s).1 advances
          (omega (arith, advances poll_interval s goes_on, h))

  -- Where a wait that the context does not cut short takes at least its time, StopService of a
  -- process that runs ends within 52 rounds: the process is not running any more; or it was
  -- running still behind the grace of five seconds, and was sent SIGKILL; or it was running within
  -- the grace, the context was done during the wait that followed, and StopService sent SIGKILL
  -- then and returned the context's error.
  pub stop_service-IsOver :
      (s : S)
      → Advances host
      → int_lt (pos 0) pid ≡ true
      → process_alive (host.stat s pid) ≡ true
      → IsOver
          (host.now (host.signal pid sigterm s) + stop_grace)
          (stop_service host pid 52 stop_grace s)
  unfolding stop_service
  stop_service-IsOver s advances p alive =
      rw (p, alive)
        (await_exit-IsOver 51 (host.now (host.signal pid sigterm s) + stop_grace)
          (host.signal pid sigterm s) advances (omega arith))
