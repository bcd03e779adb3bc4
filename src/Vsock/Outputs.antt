-- ===== src/Vsock/Outputs.antt =====
-- The frames that the agent of internal/nix/flakegen/agent/main.go sends for a command, and what the
-- loop of internal/cmd/agentsession.go makes of them.
use mathlib.Core.List.{append-nil, append_assoc}
use microbe.Base.{
  ℕ, zero, suc, ◌≤◌, ◌<◌, ◌≡◌, refl, ◌∙◌, List, [], ◌∷◌, ◌++◌, Text, length, All, length-append,
  if◌then◌else◌, ok, ℤ, pos, int_eq, arith,
}
use microbe.Vsock.Frame.{
  Frame, max_frame_len, frame_stdout, frame_stderr, frame_exit, header_bytes, read_frame, buffer,
}
use microbe.Vsock.Agent.{exit_payload, Output, stdout_chunk, stderr_chunk, send, send_outputs}
use microbe.Vsock.Session.{
  Outcome, success, exit_status, Transcript, on_frame, exit_outcome, session,
}
use microbe.Vsock.RoundTrip.{
  frame_bytes, read_frame-frame_bytes, write_frame-buffer, IsInt32,
  agent_write_frame-eq-write_frame, read_exit-exit_payload,
}

-- The command's output, from the guest to the host.

abbrev pub output_frame : Output → Text
output_frame (stdout_chunk p) = frame_bytes frame_stdout p
output_frame (stderr_chunk p) = frame_bytes frame_stderr p

abbrev pub output_frames : List Output → ℤ → Text
output_frames [] code = frame_bytes frame_exit (exit_payload code)
output_frames (o ∷ outs) code = output_frame o ++ output_frames outs code

pub send-buffer :
    (sent : Text) (typ : ℕ) (p : Text) → send buffer sent typ p ≡ sent ++ frame_bytes typ p
unfolding send
send-buffer sent typ p = rw (agent_write_frame-eq-write_frame, write_frame-buffer, send) refl

pub send_outputs-buffer :
    (sent : Text) (outs : List Output) (code : ℤ)
    → send_outputs buffer sent outs code ≡ sent ++ output_frames outs code
unfolding send_outputs
send_outputs-buffer sent [] code = send-buffer sent frame_exit (exit_payload code)
send_outputs-buffer sent (stdout_chunk p ∷ outs) code = rw (send-buffer sent frame_stdout p) (
    send_outputs-buffer (sent ++ frame_bytes frame_stdout p) outs code
    ∙ append_assoc sent (frame_bytes frame_stdout p) (output_frames outs code))
send_outputs-buffer sent (stderr_chunk p ∷ outs) code = rw (send-buffer sent frame_stderr p) (
    send_outputs-buffer (sent ++ frame_bytes frame_stderr p) outs code
    ∙ append_assoc sent (frame_bytes frame_stderr p) (output_frames outs code))

-- What the command wrote to each stream.
abbrev pub stdout_of : List Output → Text
stdout_of [] = []
stdout_of (stdout_chunk p ∷ outs) = p ++ stdout_of outs
stdout_of (stderr_chunk p ∷ outs) = stdout_of outs

abbrev pub stderr_of : List Output → Text
stderr_of [] = []
stderr_of (stdout_chunk p ∷ outs) = stderr_of outs
stderr_of (stderr_chunk p ∷ outs) = p ++ stderr_of outs

abbrev pub OutputFits : Output → Type 0
OutputFits (stdout_chunk p) = length p ≤ max_frame_len
OutputFits (stderr_chunk p) = length p ≤ max_frame_len

pub session_of :
    (fuel : ℕ) (out errs s rest : Text) (f : Frame)
    → read_frame s ≡ ok (f, rest)
    → session (suc fuel) out errs s ≡ on_frame out errs f (λ o e. session fuel o e rest)
unfolding session
session_of fuel out errs s rest f e = rw (e, session) refl

pub exit_payload_fits : (code : ℤ) → length (exit_payload code) ≤ max_frame_len
unfolding exit_payload
exit_payload_fits code = omega arith

abbrev pub outcome_of : ℤ → Outcome
outcome_of code = if int_eq code (pos 0) then success else exit_status code

pub session-exit :
    (fuel : ℕ) (out errs : Text) (code : ℤ)
    → IsInt32 code
    → session (suc fuel) out errs (output_frames [] code)
      ≡ record { stdout = out; stderr = errs; outcome = outcome_of code }
unfolding on_frame exit_outcome
session-exit fuel out errs code h =
    session_of fuel out errs (output_frames [] code) []
      (record { typ = frame_exit; payload = exit_payload code })
      (rw (append-nil (frame_bytes frame_exit (exit_payload code))) at
        (read_frame-frame_bytes frame_exit (exit_payload code) [] (exit_payload_fits code)))
    ∙ rw (read_exit-exit_payload code h) refl

pub on_frame-stdout :
    (out errs p : Text) (continue : Text → Text → Transcript)
    → on_frame out errs (record { typ = frame_stdout; payload = p }) continue
      ≡ continue (out ++ p) errs
unfolding on_frame
on_frame-stdout out errs p continue = refl

pub on_frame-stderr :
    (out errs p : Text) (continue : Text → Text → Transcript)
    → on_frame out errs (record { typ = frame_stderr; payload = p }) continue
      ≡ continue out (errs ++ p)
unfolding on_frame
on_frame-stderr out errs p continue = refl

pub session-output_frames :
    (fuel : ℕ) (out errs : Text) (outs : List Output) (code : ℤ)
    → All OutputFits outs
    → IsInt32 code
    → length outs < fuel
    → session fuel out errs (output_frames outs code) ≡ record {
      stdout = out ++ stdout_of outs;
      stderr = errs ++ stderr_of outs;
      outcome = outcome_of code;
    }
session-output_frames zero out errs outs code fit h k = elim k [ ]
session-output_frames (suc fuel) out errs [] code fit h k =
    rw (append-nil out, append-nil errs) (session-exit fuel out errs code h)
session-output_frames (suc fuel) out errs (stdout_chunk p ∷ outs) code fit h k =
    session_of fuel out errs (output_frames (stdout_chunk p ∷ outs) code) (output_frames outs code)
      (record { typ = frame_stdout; payload = p })
      (read_frame-frame_bytes frame_stdout p (output_frames outs code) fit.0)
    ∙ on_frame-stdout out errs p _
    ∙ session-output_frames fuel (out ++ p) errs outs code fit.1 h (omega arith)
    ∙ rw (append_assoc out p (stdout_of outs)) refl
session-output_frames (suc fuel) out errs (stderr_chunk p ∷ outs) code fit h k =
    session_of fuel out errs (output_frames (stderr_chunk p ∷ outs) code) (output_frames outs code)
      (record { typ = frame_stderr; payload = p })
      (read_frame-frame_bytes frame_stderr p (output_frames outs code) fit.0)
    ∙ on_frame-stderr out errs p _
    ∙ session-output_frames fuel out (errs ++ p) outs code fit.1 h (omega arith)
    ∙ rw (append_assoc errs p (stderr_of outs)) refl

pub frame_pos : (typ : ℕ) (p : Text) → 0 < length (frame_bytes typ p)
unfolding header_bytes
frame_pos typ p = omega arith

pub length-output_frames :
    (outs : List Output) (code : ℤ) → length outs ≤ length (output_frames outs code)
length-output_frames [] code = omega arith
length-output_frames (stdout_chunk p ∷ outs) code = omega (
  arith,
  length-append {0} (frame_bytes frame_stdout p) (output_frames outs code),
  length-output_frames outs code,
  frame_pos frame_stdout p,
)
length-output_frames (stderr_chunk p ∷ outs) code = omega (
  arith,
  length-append {0} (frame_bytes frame_stderr p) (output_frames outs code),
  length-output_frames outs code,
  frame_pos frame_stderr p,
)
