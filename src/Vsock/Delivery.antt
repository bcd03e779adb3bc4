-- ===== src/Vsock/Delivery.antt =====
-- End to end: what one side sends over the connection arrives at the other.
use mathlib.Core.List.{append-nil, append_assoc}
use microbe.Base.{
  sym, length-append, ltb, true, ℕ, zero, suc, ◌≤◌, ◌<◌, ◌≡◌, refl, ap, ◌∙◌, List, [], ◌∷◌, ◌++◌,
  Text, length, All, ok, ℤ, arith,
}
use microbe.Vsock.Frame.{Frame, frame_stdin, read_full, buffer}
use microbe.Vsock.Agent.{
  agent_read_frame, Output, send_outputs, Input, stdin_bytes, stdin_eof, frame_input, pump_input,
}
use microbe.Vsock.Serving.{tty_inputs, pipe_inputs}
use microbe.Vsock.Session.{send_stdin, pump_stdin, run_session}
use microbe.Vsock.RoundTrip.{frame_bytes, agent_read_frame-frame_bytes, write_frame-buffer, IsInt32}
use microbe.Vsock.Outputs.{
  output_frames, send_outputs-buffer, stdout_of, stderr_of, OutputFits, outcome_of,
  session-output_frames, length-output_frames, frame_pos,
}

-- Stdin, from the host to the guest.

abbrev pub stdin_frames : List Text → Text
stdin_frames [] = frame_bytes frame_stdin []
stdin_frames ([] ∷ rs) = stdin_frames rs
stdin_frames ((x ∷ r) ∷ rs) = frame_bytes frame_stdin (x ∷ r) ++ stdin_frames rs

send_stdin-buffer : (sent p : Text) → send_stdin buffer sent p ≡ sent ++ frame_bytes frame_stdin p
unfolding send_stdin
send_stdin-buffer sent p = rw (write_frame-buffer sent frame_stdin p, send_stdin) refl

some_bytes : (n : ℕ) → ltb 0 (suc n) ≡ true
some_bytes n = ground arith

pub pump_stdin-buffer :
    (sent : Text) (reads : List Text) → pump_stdin buffer sent reads ≡ sent ++ stdin_frames reads
unfolding pump_stdin
pump_stdin-buffer sent [] = send_stdin-buffer sent []
pump_stdin-buffer sent ([] ∷ rs) = pump_stdin-buffer sent rs
pump_stdin-buffer sent ((x ∷ r) ∷ rs) =
    rw (some_bytes (length r), send_stdin-buffer sent (x ∷ r))
      (pump_stdin-buffer (sent ++ frame_bytes frame_stdin (x ∷ r)) rs
        ∙ append_assoc sent (frame_bytes frame_stdin (x ∷ r)) (stdin_frames rs))

-- The buffer of `pumpStdin` has 32 KiB.
abbrev pub IsRead : Text → Type 0
IsRead r = length r ≤ 32768

-- What a command on pipes gets: each read that is not empty, and the end of its stdin.
abbrev pub delivered : List Text → List Input
delivered [] = stdin_eof ∷ []
delivered ([] ∷ rs) = delivered rs
delivered ((x ∷ r) ∷ rs) = stdin_bytes (x ∷ r) ∷ delivered rs

-- What a command on a terminal gets: the same, but no end.
abbrev pub typed : List Text → List Input
typed [] = []
typed ([] ∷ rs) = typed rs
typed ((x ∷ r) ∷ rs) = stdin_bytes (x ∷ r) ∷ typed rs

pump_input_of :
    (fuel : ℕ) (s rest : Text) (f : Frame)
    → agent_read_frame s ≡ ok (f, rest)
    → pump_input (suc fuel) s ≡ frame_input f ++ pump_input fuel rest
unfolding pump_input
pump_input_of fuel s rest f e = rw (e, pump_input) refl

stdin_chunk_input :
    (c : Text)
    → 0 < length c
    → frame_input (record { typ = frame_stdin; payload = c }) ≡ stdin_bytes c ∷ []
unfolding frame_input
stdin_chunk_input c h = ground arith

pump_input-nil : (fuel : ℕ) → pump_input fuel [] ≡ []
unfolding pump_input agent_read_frame read_full
pump_input-nil zero = refl
pump_input-nil (suc fuel) = refl

stdin_end_input :
    (fuel : ℕ)
    → frame_input (record { typ = frame_stdin; payload = [] }) ++ pump_input fuel []
      ≡ stdin_eof ∷ []
unfolding frame_input
stdin_end_input fuel = rw (pump_input-nil fuel) refl

pub pump_input-stdin_frames :
    (fuel : ℕ) (reads : List Text)
    → All IsRead reads
    → length (typed reads) < fuel
    → pump_input fuel (stdin_frames reads) ≡ delivered reads
pump_input-stdin_frames zero reads h k = elim k [ ]
pump_input-stdin_frames (suc fuel) [] h k =
    pump_input_of fuel (stdin_frames []) [] (record { typ = frame_stdin; payload = [] })
      (rw (append-nil (frame_bytes frame_stdin [])) at
        (agent_read_frame-frame_bytes frame_stdin [] [] (omega arith)))
    ∙ stdin_end_input fuel
pump_input-stdin_frames (suc fuel) ([] ∷ rs) h k = pump_input-stdin_frames (suc fuel) rs h.1 k
pump_input-stdin_frames (suc fuel) ((x ∷ r) ∷ rs) h k =
    pump_input_of fuel (stdin_frames ((x ∷ r) ∷ rs)) (stdin_frames rs)
      (record { typ = frame_stdin; payload = x ∷ r })
      (agent_read_frame-frame_bytes frame_stdin (x ∷ r) (stdin_frames rs) (omega (arith, h.0)))
    ∙ rw (stdin_chunk_input (x ∷ r) (omega arith))
        (ap (λ t. stdin_bytes (x ∷ r) ∷ t) (pump_input-stdin_frames fuel rs h.1 (omega (arith, k))))

pub pipe_inputs-delivered : (reads : List Text) → pipe_inputs (delivered reads) ≡ delivered reads
pipe_inputs-delivered [] = refl
pipe_inputs-delivered ([] ∷ rs) = pipe_inputs-delivered rs
pipe_inputs-delivered ((x ∷ r) ∷ rs) = ap (λ t. stdin_bytes (x ∷ r) ∷ t) (pipe_inputs-delivered rs)

pub tty_inputs-delivered : (reads : List Text) → tty_inputs (delivered reads) ≡ typed reads
tty_inputs-delivered [] = refl
tty_inputs-delivered ([] ∷ rs) = tty_inputs-delivered rs
tty_inputs-delivered ((x ∷ r) ∷ rs) = ap (λ t. stdin_bytes (x ∷ r) ∷ t) (tty_inputs-delivered rs)

stdin_enough : (reads : List Text) → length (typed reads) < suc (length (stdin_frames reads))
stdin_enough [] = omega arith
stdin_enough ([] ∷ rs) = stdin_enough rs
stdin_enough ((x ∷ r) ∷ rs) = omega (
  arith,
  stdin_enough rs,
  length-append {0} (frame_bytes frame_stdin (x ∷ r)) (stdin_frames rs),
  frame_pos frame_stdin (x ∷ r),
)

pub heard_stdin :
    (reads : List Text)
    → All IsRead reads
    → pump_input (suc (length (stdin_frames reads))) (stdin_frames reads) ≡ delivered reads
heard_stdin reads h =
    pump_input-stdin_frames (suc (length (stdin_frames reads))) reads h (stdin_enough reads)

-- Where a read of the host's stdin has at most the 32 KiB of the buffer and the connection takes
-- every write, the agent's pumpInput hands on each read of the host's pumpStdin that is not empty,
-- in order and in full: to a command on pipes, followed by the end of its stdin; to one on a
-- terminal, without it.
pub pump_input-pump_stdin :
    (reads : List Text)
    → All IsRead reads
    → (sent : Text) × (sent ≡ pump_stdin buffer [] reads)
      × (pipe_inputs (pump_input (suc (length sent)) sent) ≡ delivered reads)
      × (tty_inputs (pump_input (suc (length sent)) sent) ≡ typed reads)
pump_input-pump_stdin reads h = (
  stdin_frames reads,
  sym (pump_stdin-buffer [] reads),
  rw (heard_stdin reads h) (pipe_inputs-delivered reads),
  rw (heard_stdin reads h) (tty_inputs-delivered reads),
)

-- What the agent sends for a command, chunk by chunk and then the exit frame, the host's session
-- loop writes to its stdout and stderr, each in order and in full, and it ends with the command's
-- exit code, where each chunk fits in a frame and the code is an int32.
pub run_session-send_outputs :
    (outs : List Output) (code : ℤ)
    → All OutputFits outs
    → IsInt32 code
    → run_session (send_outputs buffer [] outs code)
      ≡ record { stdout = stdout_of outs; stderr = stderr_of outs; outcome = outcome_of code }
unfolding run_session
run_session-send_outputs outs code fit h = rw (send_outputs-buffer [] outs code) (
    session-output_frames (suc (length (output_frames outs code))) [] [] outs code fit h
      (omega (arith, length-output_frames outs code)))
