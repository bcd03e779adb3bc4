-- ===== src/Vsock/Agent.antt =====
-- internal/nix/flakegen/agent/main.go: the guest agent's hand-kept mirror of the frames, and the
-- loop that feeds the command's stdin.
use microbe.Base.{
  ℕ, ◌+◌, ◌*◌, ◌/◌, ◌%◌, List, [], ◌∷◌, ◌++◌, Text, length, ◌==◌, if◌then◌else◌, Result, ok, err,
  ◌>>=◌, ℤ, to_uint32, suc, zero,
}
use microbe.Vsock.Frame.{
  FrameError, bad_length, Frame, frame_stdin, frame_stdout, frame_stderr, frame_resize, frame_exit,
  read_full, read_payload, first,
}

-- `byte(len(payload) >> 24)` and so on.
unfoldable pub agent_header_bytes : ℕ → Text → Text
agent_header_bytes typ payload =
    typ
    ∷ (length payload / 16777216 % 256)
    ∷ (length payload / 65536 % 256)
    ∷ (length payload / 256 % 256)
    ∷ (length payload % 256)
    ∷ []

module _ {W : Type 0} (write : W → Text → Result FrameError W) where
  unfoldable pub agent_write_frame : W → ℕ → Text → Result FrameError W
  agent_write_frame w typ payload = write w (agent_header_bytes typ payload) >>= λ w'.
      if length payload == 0 then ok w' else write w' payload

-- The bytes of the header stand at different bits, so `|` is a sum.
abbrev pub agent_length : Text → ℕ
agent_length (t ∷ a ∷ b ∷ c ∷ d ∷ rest) = a * 16777216 + b * 65536 + c * 256 + d
agent_length _ = 0

-- No bound on the length, unlike the host's `ReadFrame`.
unfoldable pub agent_read_frame : Text → Result FrameError (Frame × Text)
agent_read_frame s = do
  (hdr, s') ← read_full 5 s
  (payload, s'') ← read_payload (agent_length hdr) s'
  ok (record { typ = first hdr; payload = payload }, s'')

unfoldable pub decode_resize : Text → Result FrameError (ℕ × ℕ)
decode_resize (a ∷ b ∷ c ∷ d ∷ []) = ok (a * 256 + b, c * 256 + d)
decode_resize p = err (bad_length (length p))

unfoldable pub exit_payload : ℤ → Text
exit_payload code =
    let n = to_uint32 code in
    (n / 16777216 % 256) ∷ (n / 65536 % 256) ∷ (n / 256 % 256) ∷ (n % 256) ∷ []

-- What `pumpInput` does to the command: bytes to its stdin, the end of its stdin, a new window size.
pub data Input : Type 0 where
  stdin_bytes : Text → Input
  stdin_eof : Input
  window_size : ℕ → ℕ → Input

abbrev resize_input : Result FrameError (ℕ × ℕ) → List Input
resize_input (ok (rows, cols)) = window_size rows cols ∷ []
resize_input (err e) = []

-- One frame of `pumpInput`; a frame of another type is ignored.
unfoldable pub frame_input : Frame → List Input
unfolding decode_resize
frame_input f =
    if f.typ == frame_stdin
    then (if length f.payload == 0 then stdin_eof ∷ [] else stdin_bytes f.payload ∷ [])
    else if f.typ == frame_resize
    then resize_input (decode_resize f.payload)
    else []

-- The loop of `pumpInput`: it ends at the first read that fails. A frame takes five bytes at least,
-- so the length of the stream is enough fuel.
unfoldable pub pump_input : ℕ → Text → List Input
pump_input zero s = []
pump_input (suc fuel) s = elim (agent_read_frame s) [
  | ok p ↦ frame_input p.0 ++ pump_input fuel p.1
  | err e ↦ []
]

-- A chunk that the command wrote to its stdout or its stderr.
pub data Output : Type 0 where
  stdout_chunk : Text → Output
  stderr_chunk : Text → Output

-- `frameWriter.write`, which drops the error of `writeFrame`.
module _ {W : Type 0} (write : W → Text → Result FrameError W) where
  unfoldable pub send : W → ℕ → Text → W
  send w typ payload = elim (agent_write_frame write w typ payload) [ ok w' ↦ w' | err e ↦ w ]

  -- What `runPipe` writes: a frame for each `frameStream.Write`, in the order of the writes, and the
  -- exit frame once the command has ended.
  unfoldable pub send_outputs : W → List Output → ℤ → W
  send_outputs w [] code = send w frame_exit (exit_payload code)
  send_outputs w (stdout_chunk p ∷ outs) code = send_outputs (send w frame_stdout p) outs code
  send_outputs w (stderr_chunk p ∷ outs) code = send_outputs (send w frame_stderr p) outs code
