-- ===== src/Runtime/Process.antt =====
-- `processAlive` and `StopService` of internal/runtime/runner.go.
use microbe.Base.{
  ℕ, zero, suc, ◌+◌, ◌≡◌, refl, ltb, Bool, false, not, ◌&&◌, ◌||◌, ◌==◌, ℤ, pos, int_lt, Option,
  none, some, [], ◌∷◌, ◌++◌, Text, is_space, trim_left, Result, ok, err, if◌then◌else◌, arith,
}

-- What stands behind the last closing parenthesis: `data[bytes.LastIndexByte(data, ')')+1:]`.
unfoldable pub after_last_paren : Text → Option Text
after_last_paren [] = none
after_last_paren (c ∷ cs) = elim (after_last_paren cs) [
  | some rest ↦ some rest
  | none ↦ if c == b')' then some cs else none
]

-- The first byte of the first field, which is the process's state.
abbrev runs_in_state : Text → Bool
runs_in_state [] = false
runs_in_state (state ∷ rest) = not (state == b'Z') && not (state == b'X')

abbrev runs_behind : Option Text → Bool
runs_behind none = false
runs_behind (some rest) = runs_in_state (trim_left rest)

-- `processAlive`, on what `/proc/<pid>/stat` holds, if it can be read.
unfoldable pub process_alive : Option Text → Bool
unfolding after_last_paren
process_alive none = false
process_alive (some stat) = runs_behind (after_last_paren stat)

abbrev pub has_paren : Text → Bool
has_paren [] = false
has_paren (c ∷ cs) = c == b')' || has_paren cs

trim_left-space :
    (state : ℕ) (rest : Text)
    → is_space state ≡ false
    → trim_left (32 ∷ state ∷ rest) ≡ state ∷ rest
unfolding trim_left is_space
trim_left-space state rest h = ground (arith, h)

after_last_paren-none : (s : Text) → has_paren s ≡ false → after_last_paren s ≡ none
unfolding after_last_paren
after_last_paren-none [] h = refl
after_last_paren-none (c ∷ cs) h = ground (arith, h, after_last_paren-none cs)

after_last_paren-append :
    (pre rest : Text) → has_paren rest ≡ false → after_last_paren (pre ++ b')' ∷ rest) ≡ some rest
unfolding after_last_paren
after_last_paren-append [] rest h = rw (after_last_paren-none rest h) refl
after_last_paren-append (c ∷ pre) rest h = rw (after_last_paren-append pre rest h) refl

-- The state is read behind the last parenthesis, so a process is taken for running exactly when its
-- state is neither `Z` nor `X`, whatever bytes its name holds, spaces and parentheses included.
pub process_alive-stat :
    (pid_and_name : Text) (state : ℕ) (rest : Text)
    → is_space state ≡ false
    → has_paren (state ∷ rest) ≡ false
    → process_alive (some (pid_and_name ++ b')' ∷ 32 ∷ state ∷ rest))
      ≡ (not (state == b'Z') && not (state == b'X'))
unfolding process_alive
process_alive-stat pid_and_name state rest s h =
    rw (after_last_paren-append pid_and_name (32 ∷ state ∷ rest) h)
      (rw (trim_left-space state rest s) refl)

pub data Signal : Type 0 where
  sigterm sigkill : Signal

-- The host that the process lives on: a clock in nanoseconds, what /proc shows, the delivery of a
-- signal, and a `select` on the context and `time.After`, which says whether the context was done
-- before the time had passed.
pub record Host (S : Type 0) : Type 0 where
  pub now : S → ℕ
  pub select : ℕ → S → Bool × S
  pub stat : S → ℤ → Option Text
  pub signal : ℤ → Signal → S → S

abbrev pub poll_interval : ℕ
poll_interval = 100000000

-- `StopGrace`, five seconds.
abbrev pub stop_grace : ℕ
stop_grace = 5000000000

-- How the call ended: `ctx.Err()`, and the rounds of the model ran out, which a theorem excludes.
pub data StopError : Type 0 where
  context_done out_of_fuel : StopError

module _ {S : Type 0} (host : Host S) (pid : ℤ) where
  -- The loop behind the SIGTERM.
  unfoldable pub await_exit : ℕ → ℕ → S → Result StopError (Unit {0}) × S
  unfolding process_alive
  await_exit zero deadline s = (err out_of_fuel, s)
  await_exit (suc fuel) deadline s =
      let woken = host.select poll_interval s in
      let again = await_exit fuel deadline woken.1 in
      if not (process_alive (host.stat s pid))
      then (ok tt, s)
      else if ltb deadline (host.now s)
      then (ok tt, host.signal pid sigkill s)
      else if woken.0
      then (err context_done, host.signal pid sigkill woken.1)
      else again

  -- `StopService`; `os.FindProcess` does not fail on Unix.
  unfoldable pub stop_service : ℕ → ℕ → S → Result StopError (Unit {0}) × S
  unfolding await_exit process_alive
  stop_service fuel grace s =
      if not (int_lt (pos 0) pid) || not (process_alive (host.stat s pid))
      then (ok tt, s)
      else (let t = host.signal pid sigterm s in await_exit fuel (host.now t + grace) t)
