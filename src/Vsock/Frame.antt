-- ===== src/Vsock/Frame.antt =====
-- internal/vsockexec/protocol.go: frames on a byte stream. A reader is the list of the bytes that
-- are still to come; reading returns the bytes that are left. A writer is any state with a `Write`
-- that may fail.
use microbe.Base.{
  ℕ, ◌+◌, ◌-◌, ◌*◌, ◌/◌, ◌%◌, [], ◌∷◌, ◌++◌, Text, length, take, drop, ltb, ◌==◌, if◌then◌else◌,
  Result, ok, err, ◌>>=◌, ℤ, pos, negsuc, to_uint32,
}

abbrev pub frame_header : ℕ
frame_header = 1

abbrev pub frame_stdin : ℕ
frame_stdin = 2

abbrev pub frame_stdout : ℕ
frame_stdout = 3

abbrev pub frame_stderr : ℕ
frame_stderr = 4

abbrev pub frame_resize : ℕ
frame_resize = 5

abbrev pub frame_exit : ℕ
frame_exit = 6

-- `1 << 20`
abbrev pub max_frame_len : ℕ
max_frame_len = 1048576

pub data FrameError : Type 0 where
  eof : FrameError  -- `io.EOF`: the stream ended before the first byte
  unexpected_eof : FrameError  -- `io.ErrUnexpectedEOF`: it ended inside a read
  frame_too_long : ℕ → FrameError
  bad_length : ℕ → FrameError  -- a resize or exit payload that has not four bytes
  write_failed : FrameError

-- `io.ReadFull` of a buffer with n bytes: the bytes, and the stream behind them.
unfoldable pub read_full : ℕ → Text → Result FrameError (Text × Text)
read_full n s =
    if ltb (length s) n
    then (if length s == 0 then err eof else err unexpected_eof)
    else ok (take n s, drop n s)

-- `binary.BigEndian.PutUint32`
unfoldable pub put_uint32 : ℕ → Text
put_uint32 n = (n / 16777216 % 256) ∷ (n / 65536 % 256) ∷ (n / 256 % 256) ∷ (n % 256) ∷ []

-- `binary.BigEndian.Uint32`; 0 stands for the panic on a short slice, which no caller reaches.
unfoldable pub uint32 : Text → ℕ
uint32 (a ∷ b ∷ c ∷ d ∷ rest) = a * 16777216 + b * 65536 + c * 256 + d
uint32 _ = 0

-- `binary.BigEndian.PutUint16`
unfoldable pub put_uint16 : ℕ → Text
put_uint16 n = (n / 256 % 256) ∷ (n % 256) ∷ []

-- A frame as it is read: its type and its payload.
pub record Frame : Type 0 where
  pub typ : ℕ
  pub payload : Text

-- The five bytes `hdr` of `WriteFrame`.
unfoldable pub header_bytes : ℕ → Text → Text
header_bytes typ payload = typ ∷ put_uint32 (length payload % 4294967296)

module _ {W : Type 0} (write : W → Text → Result FrameError W) where
  unfoldable pub write_frame : W → ℕ → Text → Result FrameError W
  write_frame w typ payload = write w (header_bytes typ payload) >>= λ w'.
      if length payload == 0 then ok w' else write w' payload

  unfoldable pub write_exit : W → ℤ → Result FrameError W
  unfolding write_frame
  write_exit w code = write_frame w frame_exit (put_uint32 (to_uint32 code))

-- `hdr[0]` and `hdr[1:]` of the five bytes that were read.
abbrev pub first : Text → ℕ
first [] = 0
first (x ∷ xs) = x

abbrev pub rest_of : Text → Text
rest_of [] = []
rest_of (x ∷ xs) = xs

-- The payload is read only if its length is not 0.
unfoldable pub read_payload : ℕ → Text → Result FrameError (Text × Text)
unfolding read_full
read_payload n s = if n == 0 then ok ([], s) else read_full n s

unfoldable pub read_frame : Text → Result FrameError (Frame × Text)
read_frame s = do
  (hdr, s') ← read_full 5 s
  let n = uint32 (rest_of hdr)
  if ltb max_frame_len n then err (frame_too_long n) else do
    (payload, s'') ← read_payload n s'
    ok (record { typ = first hdr; payload = payload }, s'')

-- rows then cols
unfoldable pub encode_resize : ℕ → ℕ → Text
unfolding put_uint16
encode_resize rows cols = put_uint16 rows ++ put_uint16 cols

unfoldable pub read_resize : Text → Result FrameError (ℕ × ℕ)
read_resize (a ∷ b ∷ c ∷ d ∷ []) = ok (a * 256 + b, c * 256 + d)
read_resize payload = err (bad_length (length payload))

-- The conversion `int32(n)` of a uint32.
unfoldable pub to_int32 : ℕ → ℤ
to_int32 n = if ltb n 2147483648 then pos n else negsuc (4294967295 - n)

unfoldable pub read_exit : Text → Result FrameError ℤ
unfolding uint32 to_int32
read_exit payload =
    if length payload == 4
    then ok (to_int32 (uint32 payload))
    else err (bad_length (length payload))

-- A writer that never fails: it keeps what was written.
abbrev pub buffer : Text → Text → Result FrameError Text
buffer sent bytes = ok (sent ++ bytes)
