-- ===== src/Vsock/Reply.antt =====
-- What the guest gives for a request, and that `handleConn` of
-- internal/nix/flakegen/agent/main.go sends it.
use microbe.Base.{
  suc, ◌||◌, if◌then◌else◌, ℕ, ◌≡◌, refl, ap, true, false, inl, inr, List, [], ◌∷◌, ◌++◌, Text,
  codes, length, ltb, some, Result, ok, err, Result-cases, ℤ, pos, arith,
}
use microbe.Vsock.Frame.{FrameError}
use microbe.Vsock.Agent.{pump_input, Input, Output, stdout_chunk, stderr_chunk, send_outputs}
use microbe.Vsock.Serving.{
  Header, Running, finished, hanging, GuestEvent, window_set, Guest, open_pty, tty_inputs,
  pipe_inputs, tty_outputs, tty_running, Serving, Served, returned, waiting, close_conn, refuse,
  conclude, run_pipe, run_on, run_opened, run_tty, run_request,
}
use microbe.Vsock.Served.{if_both}
use microbe.Vsock.Delivery.{typed}

-- The output of a command on a terminal: what it shows on either stream is stdout, a read of no bytes
-- aside.
abbrev pub shown : List Text → List Output
shown [] = []
shown ([] ∷ ps) = shown ps
shown ((x ∷ p) ∷ ps) = stdout_chunk (x ∷ p) ∷ shown ps

tty_outputs-shown : (ps : List Text) → tty_outputs ps ≡ shown ps
unfolding tty_outputs
tty_outputs-shown [] = refl
tty_outputs-shown ([] ∷ ps) = tty_outputs-shown ps
tty_outputs-shown ((x ∷ p) ∷ ps) = rw (tty_outputs-shown ps) (ground arith)

-- The events behind `openPTY`, with the size of the window if the header has one.
abbrev pub sized : Header → ℕ → List GuestEvent → List GuestEvent
sized h m es = if ltb 0 h.cols || ltb 0 h.rows then window_set m h.rows h.cols ∷ es else es

-- The outputs and the code that the guest gives for the command of a header, where es has happened in
-- it: those of the command, which gets `typed` on a terminal and `piped` on pipes, as the header says;
-- or a message and 1 where the guest could not start it.
pub data Ran (g : Guest) (es : List GuestEvent) (h : Header) (typed piped : List Input)
    : List Output → ℤ → Type 0 where
  on_terminal :
      (es' : List GuestEvent) (m t : ℕ) (ps : List Text) (code : ℤ)
      → h.tty ≡ true
      → open_pty g es ≡ (es', ok (m, t))
      → g.start_tty (sized h m es') h typed ≡ ok (finished ps code)
      → Ran g es h typed piped (shown ps) code
  on_pipes :
      (outs : List Output) (code : ℤ)
      → h.tty ≡ false
      → g.start_pipe es h piped ≡ ok (finished outs code)
      → Ran g es h typed piped outs code
  no_pty :
      (es' : List GuestEvent) (e : Text)
      → h.tty ≡ true
      → open_pty g es ≡ (es', err e)
      → Ran g es h typed piped
          (stderr_chunk (codes "microbe-agent: open pty: " ++ e ++ codes "\n") ∷ [])
          (pos 1)
  no_terminal_start :
      (es' : List GuestEvent) (m t : ℕ) (e : Text)
      → h.tty ≡ true
      → open_pty g es ≡ (es', ok (m, t))
      → g.start_tty (sized h m es') h typed ≡ err e
      → Ran g es h typed piped (stderr_chunk (e ++ codes "\n") ∷ []) (pos 1)
  no_pipe_start :
      (e : Text)
      → h.tty ≡ false
      → g.start_pipe es h piped ≡ err e
      → Ran g es h typed piped (stderr_chunk (e ++ codes "\n") ∷ []) (pos 1)

-- The guest gives a command of this header whose `Wait` never returns.
pub data Hangs (g : Guest) (es : List GuestEvent) (h : Header) (typed piped : List Input)
    : Type 0 where
  terminal_hangs :
      (es' : List GuestEvent) (m t : ℕ) (ps : List Text)
      → h.tty ≡ true
      → open_pty g es ≡ (es', ok (m, t))
      → g.start_tty (sized h m es') h typed ≡ ok (hanging ps)
      → Hangs g es h typed piped
  pipes_hang :
      (outs : List Output)
      → h.tty ≡ false
      → g.start_pipe es h piped ≡ ok (hanging outs)
      → Hangs g es h typed piped

-- A handler that returned has sent what the guest gives for the header.
abbrev pub Sends :
    {W : Type 0}
    → (W → Text → Result FrameError W)
    → Guest
    → Header
    → (typed piped : List Input) → Serving W
    → Served W
    → Type 0
Sends write g h typed piped s0 (returned s) =
    (outs : List Output) × (code : ℤ) × Ran g s0.events h typed piped outs code
    × (s.conn ≡ send_outputs write s0.conn outs code)
Sends write g h typed piped s0 (waiting s) = Hangs g s0.events h typed piped

module _ {W : Type 0} (write : W → Text → Result FrameError W) (g : Guest) (h : Header)
    (is : List Input) where
  refuse-send_outputs :
      (w : W) (message : Text)
      → refuse write w message ≡ send_outputs write w (stderr_chunk message ∷ []) (pos 1)
  unfolding refuse send_outputs
  refuse-send_outputs w message = refl

  HasRan : List GuestEvent → Running Output → Type 0
  HasRan es (finished outs code) = Ran g es h (tty_inputs is) (pipe_inputs is) outs code
  HasRan es (hanging outs) = Hangs g es h (tty_inputs is) (pipe_inputs is)

  conclude-Sends :
      (behind : List GuestEvent → List GuestEvent) (s s0 : Serving W) (r : Running Output)
      → s.conn ≡ s0.conn
      → HasRan s0.events r
      → Sends write g h (tty_inputs is) (pipe_inputs is) s0 (conclude write behind s r)
  unfolding conclude HasRan
  conclude-Sends behind s s0 (finished outs code) e k =
      (outs, code, k, ap (λ w. send_outputs write w outs code) e)
  conclude-Sends behind s s0 (hanging outs) e k = k

  pipes_ran :
      (es : List GuestEvent) (r : Running Output)
      → h.tty ≡ false
      → g.start_pipe es h (pipe_inputs is) ≡ ok r
      → HasRan es r
  unfolding HasRan
  pipes_ran es (finished outs code) n e = on_pipes outs code n e
  pipes_ran es (hanging outs) n e = pipes_hang outs n e

  run_pipe-Sends :
      (s : Serving W)
      → h.tty ≡ false
      → Sends write g h (tty_inputs is) (pipe_inputs is) s (run_pipe write g h is s)
  unfolding run_pipe
  run_pipe-Sends s n = elim (Result-cases (g.start_pipe s.events h (pipe_inputs is))) [
    | inl (r, e) ↦ rw (e, run_pipe) (conclude-Sends _ _ s r refl (pipes_ran s.events r n e))
    | inr (x, e) ↦ rw (e, run_pipe) (_, _, no_pipe_start x n e, refuse-send_outputs s.conn _)
  ]

  terminal_ran :
      (es es' : List GuestEvent) (m t : ℕ) (r : Running Text)
      → h.tty ≡ true
      → open_pty g es ≡ (es', ok (m, t))
      → g.start_tty (sized h m es') h (tty_inputs is) ≡ ok r
      → HasRan es (tty_running r)
  unfolding tty_running HasRan
  terminal_ran es es' m t (finished ps code) y p e =
      rw (tty_outputs-shown ps) (on_terminal es' m t ps code y p e)
  terminal_ran es es' m t (hanging ps) y p e = terminal_hangs es' m t ps y p e

  run_opened-Sends :
      (s : Serving W) (p : List GuestEvent × Result Text (ℕ × ℕ))
      → h.tty ≡ true
      → open_pty g s.events ≡ p
      → Sends write g h (tty_inputs is) (pipe_inputs is) s (run_opened write g h is s.conn p)
  unfolding run_opened run_on
  run_opened-Sends s (es', ok (m, t)) y p =
      elim (Result-cases (g.start_tty (sized h m es') h (tty_inputs is))) [
        | inl (r, e) ↦
            rw (e, run_on)
              (conclude-Sends _ _ s (tty_running r) refl (terminal_ran s.events es' m t r y p e))
        | inr (x, e) ↦
            rw (e, run_on) (_, _, no_terminal_start es' m t x y p e, refuse-send_outputs s.conn _)
      ]
  run_opened-Sends s (es', err x) y p = (_, _, no_pty es' x y p, refuse-send_outputs s.conn _)

module _ {W : Type 0} (write : W → Text → Result FrameError W) (g : Guest) (h : Header) where
  -- What `handleConn` makes of the bytes behind the header.
  abbrev pub heard : Text → List Input
  heard rest = pump_input (suc (length rest)) rest

  pub run_request-Sends :
      (rest : Text) (s : Serving W)
      → Sends write g h
          (tty_inputs (heard rest))
          (pipe_inputs (heard rest))
          s
          (run_request write g (some (h, rest)) s)
  unfolding run_request run_tty
  run_request-Sends rest s =
      if_both (Sends write g h (tty_inputs (heard rest)) (pipe_inputs (heard rest)) s) h.tty
        (λ y. run_opened-Sends write g h (heard rest) s (open_pty g s.events) y refl)
        (λ n. run_pipe-Sends write g h (heard rest) s n)

  pub close_conn-Sends :
      (c : ℕ) (ts ps : List Input) (s : Serving W) (r : Served W)
      → Sends write g h ts ps s r
      → Sends write g h ts ps s (close_conn c r)
  close_conn-Sends c ts ps s (returned s') k = k
  close_conn-Sends c ts ps s (waiting s') k = k
