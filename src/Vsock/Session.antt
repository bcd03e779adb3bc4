-- ===== src/Vsock/Session.antt =====
-- internal/cmd/agentsession.go: the host's side of a session.
use microbe.Base.{
  ℕ, zero, suc, List, [], ◌∷◌, ◌++◌, Text, length, ◌==◌, ltb, if◌then◌else◌, Result, ok, err, ℤ,
  pos, int_eq,
}
use microbe.Vsock.Frame.{
  FrameError, Frame, frame_stdin, frame_stdout, frame_stderr, frame_exit, read_frame, read_exit,
  write_frame,
}

module _ {W : Type 0} (write : W → Text → Result FrameError W) where
  -- `frameWriter.writeFrame` of stdin, whose error `pumpStdin` drops.
  unfoldable pub send_stdin : W → Text → W
  send_stdin w payload = elim (write_frame write w frame_stdin payload) [ ok w' ↦ w' | err e ↦ w ]

  -- `pumpStdin`, on what its reads return until one of them fails: a frame for each that is not empty,
  -- and at the end the empty frame. A read that returns bytes and an error is two of these.
  unfoldable pub pump_stdin : W → List Text → W
  pump_stdin w [] = send_stdin w []
  pump_stdin w (read ∷ reads) =
      pump_stdin (if ltb 0 (length read) then send_stdin w read else w) reads

-- What the loop of `runAgentSession` returns: nil, an exit status, or an unexpected end.
pub data Outcome : Type 0 where
  success : Outcome
  exit_status : ℤ → Outcome
  ended : FrameError → Outcome  -- "session ended unexpectedly"
  bad_exit : FrameError → Outcome  -- the error of `ReadExit`
  out_of_fuel : Outcome

-- What was written to stdout and stderr, and how the session ended.
pub record Transcript : Type 0 where
  pub stdout : Text
  pub stderr : Text
  pub outcome : Outcome

unfoldable pub exit_outcome : Result FrameError ℤ → Outcome
exit_outcome (ok code) = if int_eq code (pos 0) then success else exit_status code
exit_outcome (err e) = bad_exit e

-- One round of the loop, `continue` being the rest of it.
unfoldable pub on_frame : Text → Text → Frame → (Text → Text → Transcript) → Transcript
on_frame out errs f continue =
    if f.typ == frame_stdout
    then continue (out ++ f.payload) errs
    else if f.typ == frame_stderr
    then continue out (errs ++ f.payload)
    else if f.typ == frame_exit
    then record { stdout = out; stderr = errs; outcome = exit_outcome (read_exit f.payload) }
    else continue out errs

-- A frame takes five bytes at least, so more fuel than bytes is enough.
unfoldable pub session : ℕ → Text → Text → Text → Transcript
session zero out errs s = record { stdout = out; stderr = errs; outcome = out_of_fuel }
session (suc fuel) out errs s = elim (read_frame s) [
  | ok p ↦ on_frame out errs p.0 (λ o e. session fuel o e p.1)
  | err e ↦ record { stdout = out; stderr = errs; outcome = ended e }
]

unfoldable pub run_session : Text → Transcript
run_session s = session (suc (length s)) [] [] s
