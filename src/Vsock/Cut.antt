-- ===== src/Vsock/Cut.antt =====
-- A session of internal/cmd/agentsession.go whose connection ends before the exit frame.
use mathlib.Core.List.{append-nil, append_assoc}
use microbe.Base.{
  ℕ, zero, suc, ◌≤◌, ◌<◌, ◌≡◌, refl, ◌∙◌, List, [], ◌∷◌, ◌++◌, Text, length, All, length-append,
  err, arith,
}
use microbe.Vsock.Frame.{FrameError, frame_stdout, frame_stderr, read_frame, buffer}
use microbe.Vsock.Agent.{Output, stdout_chunk, stderr_chunk}
use microbe.Vsock.Serving.{send_chunks}
use microbe.Vsock.Session.{ended, session, run_session}
use microbe.Vsock.RoundTrip.{frame_bytes, read_frame-frame_bytes}
use microbe.Vsock.Outputs.{
  output_frame, send-buffer, stdout_of, stderr_of, OutputFits, session_of, on_frame-stdout,
  on_frame-stderr, frame_pos,
}

abbrev chunk_frames : List Output → Text
chunk_frames [] = []
chunk_frames (o ∷ outs) = output_frame o ++ chunk_frames outs

send_chunks-buffer :
    (sent : Text) (outs : List Output) → send_chunks buffer sent outs ≡ sent ++ chunk_frames outs
unfolding send_chunks
send_chunks-buffer sent [] = rw append-nil refl
send_chunks-buffer sent (stdout_chunk p ∷ outs) = rw (send-buffer sent frame_stdout p) (
    send_chunks-buffer (sent ++ frame_bytes frame_stdout p) outs
    ∙ append_assoc sent (frame_bytes frame_stdout p) (chunk_frames outs))
send_chunks-buffer sent (stderr_chunk p ∷ outs) = rw (send-buffer sent frame_stderr p) (
    send_chunks-buffer (sent ++ frame_bytes frame_stderr p) outs
    ∙ append_assoc sent (frame_bytes frame_stderr p) (chunk_frames outs))

session-cut :
    (fuel : ℕ) (out errs tail : Text) (e : FrameError) (outs : List Output)
    → All OutputFits outs
    → read_frame tail ≡ err e
    → length outs < fuel
    → session fuel out errs (chunk_frames outs ++ tail) ≡ record {
      stdout = out ++ stdout_of outs;
      stderr = errs ++ stderr_of outs;
      outcome = ended e;
    }
unfolding session
session-cut zero out errs tail e outs fit q k = elim k [ ]
session-cut (suc fuel) out errs tail e [] fit q k =
    rw (append-nil out, append-nil errs, q, session) refl
session-cut (suc fuel) out errs tail e (stdout_chunk p ∷ outs) fit q k =
    session_of fuel out errs (chunk_frames (stdout_chunk p ∷ outs) ++ tail)
      (chunk_frames outs ++ tail) (record { typ = frame_stdout; payload = p })
      (rw (append_assoc (frame_bytes frame_stdout p) (chunk_frames outs) tail)
        (read_frame-frame_bytes frame_stdout p (chunk_frames outs ++ tail) fit.0))
    ∙ on_frame-stdout out errs p _
    ∙ session-cut fuel (out ++ p) errs tail e outs fit.1 q (omega (arith, k))
    ∙ rw (append_assoc out p (stdout_of outs)) refl
session-cut (suc fuel) out errs tail e (stderr_chunk p ∷ outs) fit q k =
    session_of fuel out errs (chunk_frames (stderr_chunk p ∷ outs) ++ tail)
      (chunk_frames outs ++ tail) (record { typ = frame_stderr; payload = p })
      (rw (append_assoc (frame_bytes frame_stderr p) (chunk_frames outs) tail)
        (read_frame-frame_bytes frame_stderr p (chunk_frames outs ++ tail) fit.0))
    ∙ on_frame-stderr out errs p _
    ∙ session-cut fuel out (errs ++ p) tail e outs fit.1 q (omega (arith, k))
    ∙ rw (append_assoc errs p (stderr_of outs)) refl

length-chunk_frames : (outs : List Output) → length outs ≤ length (chunk_frames outs)
length-chunk_frames [] = omega arith
length-chunk_frames (stdout_chunk p ∷ outs) = omega (
  arith,
  length-append {0} (frame_bytes frame_stdout p) (chunk_frames outs),
  length-chunk_frames outs,
  frame_pos frame_stdout p,
)
length-chunk_frames (stderr_chunk p ∷ outs) = omega (
  arith,
  length-append {0} (frame_bytes frame_stderr p) (chunk_frames outs),
  length-chunk_frames outs,
  frame_pos frame_stderr p,
)

-- Where the agent's output fits in frames and what follows it on the connection is no frame,
-- because the connection ends there or in the middle of one or the length is too large, the
-- session has printed all of that output, each stream in order, and returns the error of that read
-- and no exit status.
pub run_session-cut :
    (outs : List Output) (tail : Text) (e : FrameError)
    → All OutputFits outs
    → read_frame tail ≡ err e
    → run_session (send_chunks buffer [] outs ++ tail)
      ≡ record { stdout = stdout_of outs; stderr = stderr_of outs; outcome = ended e }
unfolding run_session
run_session-cut outs tail e fit q = rw (send_chunks-buffer [] outs) (
    session-cut (suc (length (chunk_frames outs ++ tail))) [] [] tail e outs fit q
      (omega (arith, length-append {0} (chunk_frames outs) tail, length-chunk_frames outs)))
