-- ===== src/Vsock/Serving.antt =====
-- internal/nix/flakegen/agent/main.go: what the agent does with a connection, `handleConn`, and the
-- header that internal/cmd/agentsession.go opens it with.
use microbe.Base.{
  ℕ, suc, Bool, List, [], ◌∷◌, ◌++◌, Text, codes, digits, length, ltb, ◌==◌, ◌||◌, if◌then◌else◌,
  Option, none, some, Result, ok, err, ◌>>=◌, ℤ, pos,
}
use microbe.Vsock.Frame.{
  FrameError, frame_header, frame_stdout, frame_stderr, frame_exit, write_frame,
}
use microbe.Vsock.Agent.{
  agent_read_frame, exit_payload, Input, stdin_bytes, stdin_eof, window_size, pump_input, Output,
  stdout_chunk, stderr_chunk, send, send_outputs,
}

-- The struct `header`, and the host's `Header`.
pub record Header : Type 0 where
  pub argv : List Text
  pub tty : Bool
  pub cols : ℕ
  pub rows : ℕ

-- `WriteHeader`, with `json.Marshal` as a parameter.
module _ {W : Type 0} (write : W → Text → Result FrameError W) where
  unfoldable pub write_header : (Header → Result FrameError Text) → W → Header → Result FrameError W
  write_header marshal w h = marshal h >>= λ b. write_frame write w frame_header b

-- The header of `runAgentSession`: a login shell where no command is given, and the size of the
-- terminal where there is one.
unfoldable pub session_header : List Text → Bool → Result Text (ℕ × ℕ) → Header
session_header command tty size =
    let argv = if length command == 0 then codes "/bin/sh" ∷ codes "-l" ∷ [] else command in
    elim size [
      | ok p ↦
          if tty
          then record { argv = argv; tty = tty; cols = p.1; rows = p.0 }
          else record { argv = argv; tty = tty; cols = 0; rows = 0 }
      | err e ↦ record { argv = argv; tty = tty; cols = 0; rows = 0 }
    ]

-- What a command that was started comes to: `Wait` returns behind its output, or it never does.
pub data Running (A : Type 0) : Type 0 where
  finished : List A → ℤ → Running A
  hanging : List A → Running A

-- What the agent did in the guest, the last first. Files are named by their descriptors.
pub data GuestEvent : Type 0 where
  opened : ℕ → GuestEvent
  closed : ℕ → GuestEvent
  window_set : ℕ → ℕ → ℕ → GuestEvent
  started : Header → GuestEvent
  waited : GuestEvent

-- The guest's kernel and the library: each call may depend on all that was done before. A command on
-- a terminal gives the chunks that were read from the master before it was closed.
pub record Guest : Type 0 where
  pub unmarshal : Text → Result Text Header
  pub open_file : List GuestEvent → Text → Result Text ℕ
  pub unlock : List GuestEvent → ℕ → Result Text ℕ
  pub pty_number : List GuestEvent → ℕ → Result Text ℕ
  pub start_tty : List GuestEvent → Header → List Input → Result Text (Running Text)
  pub start_pipe : List GuestEvent → Header → List Input → Result Text (Running Output)

-- `openPTY` behind the opening of the master.
unfoldable pub open_slave : Guest → ℕ → List GuestEvent → Result Text ℕ
open_slave g m es = do
  _ ← g.unlock es m
  n ← g.pty_number es m
  g.open_file es (codes "/dev/pts/" ++ digits n)

unfoldable pub close_on_error :
    ℕ → List GuestEvent → Result Text ℕ → List GuestEvent × Result Text (ℕ × ℕ)
close_on_error m es (ok s) = (opened s ∷ es, ok (m, s))
close_on_error m es (err e) = (closed m ∷ es, err e)

-- `openPTY`: the master and the slave.
unfoldable pub open_pty : Guest → List GuestEvent → List GuestEvent × Result Text (ℕ × ℕ)
open_pty g es = elim (g.open_file es (codes "/dev/ptmx")) [
  | ok m ↦ close_on_error m (opened m ∷ es) (open_slave g m (opened m ∷ es))
  | err e ↦ (es, err e)
]

-- The inputs that `pumpInput` hands on: no end of stdin on a terminal, where `onEOF` is nil, and no
-- window size without one, where `resize` is nil.
abbrev pub tty_inputs : List Input → List Input
tty_inputs [] = []
tty_inputs (stdin_bytes b ∷ is) = stdin_bytes b ∷ tty_inputs is
tty_inputs (stdin_eof ∷ is) = tty_inputs is
tty_inputs (window_size r c ∷ is) = window_size r c ∷ tty_inputs is

abbrev pub pipe_inputs : List Input → List Input
pipe_inputs [] = []
pipe_inputs (stdin_bytes b ∷ is) = stdin_bytes b ∷ pipe_inputs is
pipe_inputs (stdin_eof ∷ is) = stdin_eof ∷ pipe_inputs is
pipe_inputs (window_size r c ∷ is) = pipe_inputs is

-- The chunks that the loop of `runTTY` sends: a read of no bytes is not sent.
unfoldable pub tty_outputs : List Text → List Output
tty_outputs [] = []
tty_outputs (p ∷ ps) =
    let rest = tty_outputs ps in if ltb 0 (length p) then stdout_chunk p ∷ rest else rest

unfoldable pub tty_running : Running Text → Running Output
tty_running (finished ps code) = finished (tty_outputs ps) code
tty_running (hanging ps) = hanging (tty_outputs ps)

-- What the agent did and the writer of the connection.
pub record Serving (W : Type 0) : Type 0 where
  pub events : List GuestEvent
  pub conn : W

-- A handler that returned, or one that waits for its command without end.
pub data Served (W : Type 0) : Type 0 where
  returned : Serving W → Served W
  waiting : Serving W → Served W

-- The deferred `conn.Close()`.
abbrev pub close_conn : {W : Type 0} → ℕ → Served W → Served W
close_conn c (returned s) = returned (record s { events = closed c ∷ s.events })
close_conn c (waiting s) = waiting s

-- The header and what follows it, if `handleConn` goes on with it.
unfoldable pub accepted : Text → Result Text Header → Option (Header × Text)
accepted rest (ok h) = if length h.argv == 0 then none else some (h, rest)
accepted rest (err e) = none

unfoldable pub request : Guest → Text → Option (Header × Text)
request g stream = elim (agent_read_frame stream) [
  | ok p ↦ if p.0.typ == frame_header then accepted p.1 (g.unmarshal p.0.payload) else none
  | err e ↦ none
]

module _ {W : Type 0} (write : W → Text → Result FrameError W) where
  -- A message and the exit code 1.
  unfoldable pub refuse : W → Text → W
  refuse w message =
      send write (send write w frame_stderr message) frame_exit (exit_payload (pos 1))

  unfoldable pub send_chunks : W → List Output → W
  send_chunks w [] = w
  send_chunks w (stdout_chunk p ∷ outs) = send_chunks (send write w frame_stdout p) outs
  send_chunks w (stderr_chunk p ∷ outs) = send_chunks (send write w frame_stderr p) outs

  -- The frames of a command that was started, `behind` being what is done once it has ended.
  unfoldable pub conclude :
      (List GuestEvent → List GuestEvent) → Serving W → Running Output → Served W
  conclude behind s (finished outs code) =
      returned (record { events = behind s.events; conn = send_outputs write s.conn outs code })
  conclude behind s (hanging outs) = waiting (record s { conn = send_chunks s.conn outs })

  unfoldable pub run_pipe : Guest → Header → List Input → Serving W → Served W
  run_pipe g h inputs s = elim (g.start_pipe s.events h (pipe_inputs inputs)) [
    | ok r ↦
        conclude (λ es. waited ∷ es) (record { events = started h ∷ s.events; conn = s.conn }) r
    | err e ↦ returned (record { events = s.events; conn = refuse s.conn (e ++ codes "\n") })
  ]

  abbrev pub with_window : Header → ℕ → List GuestEvent → List GuestEvent
  with_window h m es = if ltb 0 h.cols || ltb 0 h.rows then window_set m h.rows h.cols ∷ es else es

  -- `runTTY` behind `openPTY`.
  unfoldable pub run_on : Guest → Header → List Input → ℕ → ℕ → Serving W → Served W
  run_on g h inputs m t s = elim (g.start_tty (with_window h m s.events) h (tty_inputs inputs)) [
    | ok r ↦
        conclude (λ es. closed m ∷ waited ∷ es)
          (record { events = closed t ∷ started h ∷ with_window h m s.events; conn = s.conn })
          (tty_running r)
    | err e ↦ returned (record {
      events = closed m ∷ closed t ∷ with_window h m s.events;
      conn = refuse s.conn (e ++ codes "\n");
    })
  ]

  unfoldable pub run_opened :
      Guest → Header → List Input → W → List GuestEvent × Result Text (ℕ × ℕ) → Served W
  run_opened g h inputs w (es, ok (m, t)) = run_on g h inputs m t (record { events = es; conn = w })
  run_opened g h inputs w (es, err e) = returned (record {
    events = es;
    conn = refuse w (codes "microbe-agent: open pty: " ++ e ++ codes "\n");
  })

  unfoldable pub run_tty : Guest → Header → List Input → Serving W → Served W
  run_tty g h inputs s = run_opened g h inputs s.conn (open_pty g s.events)

  unfoldable pub run_request : Guest → Option (Header × Text) → Serving W → Served W
  run_request g none s = returned s
  run_request g (some (h, rest)) s =
      let inputs = pump_input (suc (length rest)) rest in
      if h.tty then run_tty g h inputs s else run_pipe g h inputs s

  -- `handleConn` on the connection c, whose peer sends the stream.
  unfoldable pub handle_conn : Guest → ℕ → Text → Serving W → Served W
  handle_conn g c stream s = close_conn c (run_request g (request g stream) s)
