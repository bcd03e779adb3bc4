-- ===== src/Vsock/Served.antt =====
-- What a connection of the agent of internal/nix/flakegen/agent/main.go comes to: the descriptors
-- it leaves, and what the host makes of the answer.
use microbe.Base.{
  ℕ, ◌≡◌, refl, Bool, true, false, inl, inr, List, [], ◌∷◌, Text, codes, ◌==◌, if◌then◌else◌,
  Option, some, none, Result, ok, err, Result-cases, arith,
}
use microbe.Vsock.Frame.{FrameError}
use microbe.Vsock.Agent.{Input, Output}
use microbe.Vsock.Serving.{
  Header, Running, finished, hanging, GuestEvent, opened, closed, window_set, started, waited,
  Guest, close_on_error, open_pty, tty_inputs, pipe_inputs, tty_running, Serving, Served, returned,
  waiting, close_conn, request, conclude, run_pipe, with_window, run_on, run_opened, run_tty,
  run_request, handle_conn,
}

pub if_both :
    {A : Type 0} (P : A → Type 0) (b : Bool) {x y : A}
    → (b ≡ true → P x)
    → (b ≡ false → P y)
    → P (if b then x else y)
if_both P true p q = p refl
if_both P false p q = q refl

-- The descriptors that are open behind these events.
abbrev pub remove_fd : ℕ → List ℕ → List ℕ
remove_fd c [] = []
remove_fd c (d ∷ ds) = let rest = remove_fd c ds in if c == d then ds else d ∷ rest

abbrev pub open_in : List GuestEvent → List ℕ
open_in [] = []
open_in (opened c ∷ es) = c ∷ open_in es
open_in (closed c ∷ es) = remove_fd c (open_in es)
open_in (window_set m r c ∷ es) = open_in es
open_in (started h ∷ es) = open_in es
open_in (waited ∷ es) = open_in es

remove_first : (c : ℕ) (ds : List ℕ) → remove_fd c (c ∷ ds) ≡ ds
remove_first c ds = ground arith

-- A handler leaves these descriptors open when it returns.
abbrev pub Leaves : {W : Type 0} → List ℕ → Served W → Type 0
Leaves fds (returned s) = open_in s.events ≡ fds
Leaves fds (waiting s) = Unit

open_in-with_window :
    {W : Type 0} (write : W → Text → Result FrameError W) (h : Header) (m : ℕ)
    (es : List GuestEvent)
    → open_in (with_window write h m es) ≡ open_in es
open_in-with_window write h m es = ground arith

-- What `openPTY` leaves open: both files or none.
OpensBoth : List GuestEvent → List GuestEvent × Result Text (ℕ × ℕ) → Type 0
OpensBoth es (es', ok (m, s)) = open_in es' ≡ s ∷ m ∷ open_in es
OpensBoth es (es', err e) = open_in es' ≡ open_in es

close_on_error-OpensBoth :
    (m : ℕ) (es : List GuestEvent) (r : Result Text ℕ)
    → OpensBoth es (close_on_error m (opened m ∷ es) r)
unfolding OpensBoth close_on_error
close_on_error-OpensBoth m es (ok s) = refl
close_on_error-OpensBoth m es (err e) = remove_first m (open_in es)

open_pty-OpensBoth : (g : Guest) (es : List GuestEvent) → OpensBoth es (open_pty g es)
unfolding OpensBoth open_pty
open_pty-OpensBoth g es = elim (Result-cases (g.open_file es (codes "/dev/ptmx"))) [
  | inl (m, e) ↦ rw (e, open_pty) (close_on_error-OpensBoth m es _)
  | inr (x, e) ↦ rw (e, open_pty) refl
]

module _ {W : Type 0} (write : W → Text → Result FrameError W) where
  conclude-Leaves :
      (behind : List GuestEvent → List GuestEvent) (fds : List ℕ) (s : Serving W)
      (r : Running Output)
      → open_in (behind s.events) ≡ fds
      → Leaves fds (conclude write behind s r)
  unfolding conclude
  conclude-Leaves behind fds s (finished outs code) h = h
  conclude-Leaves behind fds s (hanging outs) h = tt

  run_pipe-Leaves :
      (g : Guest) (h : Header) (inputs : List Input) (s : Serving W)
      → Leaves (open_in s.events) (run_pipe write g h inputs s)
  unfolding run_pipe
  run_pipe-Leaves g h inputs s =
      elim (Result-cases (g.start_pipe s.events h (pipe_inputs inputs))) [
        | inl (r, e) ↦ rw (e, run_pipe) (conclude-Leaves _ (open_in s.events) _ r refl)
        | inr (x, e) ↦ rw (e, run_pipe) refl
      ]

  both_closed :
      (h : Header) (m t : ℕ) (es : List GuestEvent) (fds : List ℕ)
      → open_in es ≡ t ∷ m ∷ fds
      → open_in (closed m ∷ closed t ∷ with_window write h m es) ≡ fds
  both_closed h m t es fds q =
      rw (open_in-with_window write h m es, q, remove_first t (m ∷ fds)) (remove_first m fds)

  run_on-Leaves :
      (g : Guest) (h : Header) (inputs : List Input) (m t : ℕ) (s : Serving W) (fds : List ℕ)
      → open_in s.events ≡ t ∷ m ∷ fds
      → Leaves fds (run_on write g h inputs m t s)
  unfolding run_on
  run_on-Leaves g h inputs m t s fds q =
      elim (Result-cases (g.start_tty (with_window write h m s.events) h (tty_inputs inputs))) [
        | inl (r, e) ↦
            rw (e, run_on)
              (conclude-Leaves _ fds _ (tty_running r) (both_closed h m t s.events fds q))
        | inr (x, e) ↦ rw (e, run_on) (both_closed h m t s.events fds q)
      ]

  run_opened-Leaves :
      (g : Guest) (h : Header) (inputs : List Input) (s : Serving W)
      (p : List GuestEvent × Result Text (ℕ × ℕ))
      → OpensBoth s.events p
      → Leaves (open_in s.events) (run_opened write g h inputs s.conn p)
  unfolding OpensBoth run_opened
  run_opened-Leaves g h inputs s (es, ok (m, t)) q =
      run_on-Leaves g h inputs m t (record { events = es; conn = s.conn }) _ q
  run_opened-Leaves g h inputs s (es, err x) q = q

  run_request-Leaves :
      (g : Guest) (r : Option (Header × Text)) (s : Serving W)
      → Leaves (open_in s.events) (run_request write g r s)
  unfolding run_request run_tty
  run_request-Leaves g none s = refl
  run_request-Leaves g (some (h, rest)) s =
      if_both (Leaves (open_in s.events)) h.tty
        (λ y. run_opened-Leaves g h _ s (open_pty g s.events) (open_pty-OpensBoth g s.events))
        (λ n. run_pipe-Leaves g h _ s)

  close_conn-Leaves :
      (c : ℕ) (fds : List ℕ) (r : Served W) → Leaves (c ∷ fds) r → Leaves fds (close_conn c r)
  close_conn-Leaves c fds (returned s) h = rw h (remove_first c fds)
  close_conn-Leaves c fds (waiting s) h = tt

  -- When handleConn returns, through whatever failure, it has closed its connection and every file
  -- that it opened, and no other file.
  pub handle_conn-Leaves :
      (g : Guest) (c : ℕ) (stream : Text) (es : List GuestEvent) (w : W)
      → Leaves
          (open_in es)
          (handle_conn write g c stream (record { events = opened c ∷ es; conn = w }))
  unfolding handle_conn
  handle_conn-Leaves g c stream es w =
      close_conn-Leaves c (open_in es) _ (run_request-Leaves g (request g stream) _)
