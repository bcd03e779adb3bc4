-- ===== src/Vsock/Dial.antt =====
-- internal/vsockexec/dial.go: the hybrid-vsock handshake.
use microbe.Base.{
  ℕ, [], ◌∷◌, ◌++◌, Text, codes, length, ltb, ◌==◌, has_prefix, if◌then◌else◌, Result, ok, err,
  ◌>>=◌,
}

abbrev pub max_handshake_line : ℕ
max_handshake_line = 256

pub data DialError : Type 0 where
  no_reply : DialError  -- the stream ended before the line did
  line_too_long : DialError
  refused : Text → DialError  -- the reply line that is not an "OK"

-- `readLine`, one byte at a time; `buf` is what was read so far. It returns the line without its
-- '\n', and the stream behind it.
unfoldable pub read_line_from : Text → Text → Result DialError (Text × Text)
read_line_from buf [] = err no_reply
read_line_from buf (c ∷ s) =
    let rest = read_line_from (buf ++ c ∷ []) s in
    if c == 10
    then ok (buf, s)
    else if ltb max_handshake_line (length (buf ++ c ∷ []))
    then err line_too_long
    else rest

unfoldable pub read_line : Text → Result DialError (Text × Text)
unfolding read_line_from
read_line s = read_line_from [] s

-- What `DialHybridVsock` does with the peer's bytes: the stream that the caller goes on with.
unfoldable pub handshake : Text → Result DialError Text
unfolding read_line
handshake s = do
  (line, rest) ← read_line s
  if has_prefix line (codes "OK ") then ok rest else err (refused line)
