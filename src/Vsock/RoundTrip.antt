-- ===== src/Vsock/RoundTrip.antt =====
-- What one side writes the other side reads back: frames, sizes, exit codes.
use mathlib.Core.List.{append-nil, append_assoc}
use microbe.Base.{
  ℕ, ◌/◌, ◌*◌, suc, ◌+◌, ◌%◌, ◌≤◌, ◌<◌, ◌≡◌, refl, [], ◌∷◌, ◌++◌, Text, length, length-append,
  take-append_length, drop-append_length, ltb, ◌==◌, true, false, Result, ok, err, ℤ, pos, negsuc,
  arith,
}
use microbe.Vsock.Frame.{
  Frame, FrameError, frame_too_long, max_frame_len, read_full, read_payload, put_uint32, uint32,
  header_bytes, write_frame, read_frame, encode_resize, read_resize, to_int32, read_exit, buffer,
  rest_of, first,
}
use microbe.Vsock.Agent.{
  agent_header_bytes, agent_length, agent_write_frame, agent_read_frame, decode_resize,
  exit_payload,
}

uint32-put_uint32 : (n : ℕ) → n < 4294967296 → uint32 (put_uint32 n) ≡ n
unfolding uint32 put_uint32
uint32-put_uint32 n h = omega arith

ltb_append : (n : ℕ) (xs ys : Text) → length xs ≡ n → ltb (length (xs ++ ys)) n ≡ false
ltb_append n xs ys h = ground (arith, length-append xs ys)

-- A full read takes exactly the bytes that were written.
pub read_full-append : (xs ys : Text) → read_full (length xs) (xs ++ ys) ≡ ok (xs, ys)
unfolding read_full
read_full-append xs ys =
    rw (ltb_append (length xs) xs ys refl) (rw (take-append_length xs ys, drop-append_length xs ys))

suc-ne-zero : (n : ℕ) → (suc n == 0) ≡ false
suc-ne-zero n = ground arith

pub read_payload-append : (p rest : Text) → read_payload (length p) (p ++ rest) ≡ ok (p, rest)
unfolding read_payload
read_payload-append [] rest = refl
read_payload-append (x ∷ p) rest = rw (suc-ne-zero (length p)) (read_full-append (x ∷ p) rest)

-- The bytes of one frame.
abbrev pub frame_bytes : ℕ → Text → Text
frame_bytes typ payload = header_bytes typ payload ++ payload

fits : (n : ℕ) → n ≤ max_frame_len → ltb max_frame_len n ≡ false
fits n h = ground arith

exceeds : (n : ℕ) → max_frame_len < n → ltb max_frame_len n ≡ true
exceeds n h = ground arith

wrapped_length : (n : ℕ) → n < 4294967296 → uint32 (put_uint32 (n % 4294967296)) ≡ n
unfolding uint32 put_uint32
wrapped_length n h = omega arith

read_frame_of :
    (s hdr s' p rest : Text) (n : ℕ)
    → read_full 5 s ≡ ok (hdr, s')
    → uint32 (rest_of hdr) ≡ n
    → n ≤ max_frame_len
    → read_payload n s' ≡ ok (p, rest)
    → read_frame s ≡ ok (record { typ = first hdr; payload = p }, rest)
unfolding read_frame
read_frame_of s hdr s' p rest n e f h g = rw e (rw f (rw (fits n h) (rw g refl)))

header_read :
    (typ : ℕ) (p s : Text) → read_full 5 (header_bytes typ p ++ s) ≡ ok (header_bytes typ p, s)
unfolding header_bytes put_uint32
header_read typ p s = read_full-append (header_bytes typ p) s

header_length :
    (typ : ℕ) (p : Text) → length p < 4294967296 → uint32 (rest_of (header_bytes typ p)) ≡ length p
unfolding header_bytes
header_length typ p h = wrapped_length (length p) h

-- The host reads back a frame that either side wrote, and leaves the rest of the stream.
pub read_frame-frame_bytes :
    (typ : ℕ) (p rest : Text)
    → length p ≤ max_frame_len
    → read_frame (frame_bytes typ p ++ rest) ≡ ok (record { typ = typ; payload = p }, rest)
unfolding header_bytes put_uint32
read_frame-frame_bytes typ p rest h =
    read_frame_of (frame_bytes typ p ++ rest) (header_bytes typ p) (p ++ rest) p rest (length p)
      (header_read typ p (p ++ rest)) (header_length typ p (omega arith)) h
      (read_payload-append p rest)

agent_read_frame_of :
    (s hdr s' p rest : Text) (n : ℕ)
    → read_full 5 s ≡ ok (hdr, s')
    → agent_length hdr ≡ n
    → read_payload n s' ≡ ok (p, rest)
    → agent_read_frame s ≡ ok (record { typ = first hdr; payload = p }, rest)
unfolding agent_read_frame
agent_read_frame_of s hdr s' p rest n e f g = rw e (rw f (rw g refl))

agent_header_length :
    (typ : ℕ) (p : Text) → length p < 4294967296 → agent_length (header_bytes typ p) ≡ length p
unfolding header_bytes put_uint32
agent_header_length typ p h = omega arith

-- The agent reads back any frame whose length fits in 32 bits.
pub agent_read_frame-frame_bytes :
    (typ : ℕ) (p rest : Text)
    → length p < 4294967296
    → agent_read_frame (frame_bytes typ p ++ rest) ≡ ok (record { typ = typ; payload = p }, rest)
unfolding header_bytes put_uint32
agent_read_frame-frame_bytes typ p rest h =
    agent_read_frame_of (frame_bytes typ p ++ rest) (header_bytes typ p) (p ++ rest) p rest
      (length p) (header_read typ p (p ++ rest)) (agent_header_length typ p h)
      (read_payload-append p rest)

pub write_frame-buffer :
    (sent : Text) (typ : ℕ) (p : Text)
    → write_frame buffer sent typ p ≡ ok (sent ++ frame_bytes typ p)
unfolding write_frame
write_frame-buffer sent typ [] = rw append-nil refl
write_frame-buffer sent typ (x ∷ p) =
    rw (suc-ne-zero (length p), append_assoc sent (header_bytes typ (x ∷ p)) (x ∷ p)) refl

wrapped_digits :
    (n : ℕ)
    → (n / 16777216 % 256 ≡ n % 4294967296 / 16777216 % 256)
      × (n / 65536 % 256 ≡ n % 4294967296 / 65536 % 256)
      × (n / 256 % 256 ≡ n % 4294967296 / 256 % 256)
      × (n % 256 ≡ n % 4294967296 % 256)
wrapped_digits n = omega arith

agent-header_bytes : (typ : ℕ) (p : Text) → agent_header_bytes typ p ≡ header_bytes typ p
unfolding header_bytes agent_header_bytes put_uint32
agent-header_bytes typ p = let (a, b, c, d) = wrapped_digits (length p) in cc (a, b, c, d)

-- The agent's writeFrame writes the same bytes as the host's WriteFrame, through any writer,
-- failing or not.
pub agent_write_frame-eq-write_frame :
    {W : Type 0} (write : W → Text → Result FrameError W) (w : W) (typ : ℕ) (p : Text)
    → agent_write_frame write w typ p ≡ write_frame write w typ p
unfolding agent_write_frame write_frame
agent_write_frame-eq-write_frame write w typ p = rw agent-header_bytes refl

agent_length-eq-uint32 : (hdr : Text) → agent_length hdr ≡ uint32 (rest_of hdr)
unfolding uint32
agent_length-eq-uint32 [] = refl
agent_length-eq-uint32 (t ∷ []) = refl
agent_length-eq-uint32 (t ∷ a ∷ []) = refl
agent_length-eq-uint32 (t ∷ a ∷ b ∷ []) = refl
agent_length-eq-uint32 (t ∷ a ∷ b ∷ c ∷ []) = refl
agent_length-eq-uint32 (t ∷ a ∷ b ∷ c ∷ d ∷ rest) = refl

-- Where the host's ReadFrame succeeds, the agent's readFrame returns the same frame and leaves the
-- same rest.
pub agent_read_frame_of_read_frame :
    (s rest : Text) (f : Frame) → read_frame s ≡ ok (f, rest) → agent_read_frame s ≡ ok (f, rest)
unfolding read_frame agent_read_frame
agent_read_frame_of_read_frame s rest f h = grind (arith, agent_length-eq-uint32)

read_frame_long_of :
    (s hdr s' : Text) (n : ℕ)
    → read_full 5 s ≡ ok (hdr, s')
    → uint32 (rest_of hdr) ≡ n
    → max_frame_len < n
    → read_frame s ≡ err (frame_too_long n)
unfolding read_frame
read_frame_long_of s hdr s' n e f h = rw e (rw f (rw (exceeds n h) refl))

-- A payload over the bound is refused by the host's `ReadFrame`, whatever follows it.
pub read_frame_too_long :
    (typ : ℕ) (p rest : Text)
    → max_frame_len < length p
    → length p < 4294967296
    → read_frame (frame_bytes typ p ++ rest) ≡ err (frame_too_long (length p))
unfolding header_bytes put_uint32
read_frame_too_long typ p rest h k =
    read_frame_long_of (frame_bytes typ p ++ rest) (header_bytes typ p) (p ++ rest) (length p)
      (header_read typ p (p ++ rest)) (header_length typ p k) h

-- A window size below 2^16 in each dimension comes back from the resize frame's payload, on the host's
-- side and on the agent's.
pub read_resize-encode_resize :
    (rows cols : ℕ)
    → rows < 65536
    → cols < 65536
    → (read_resize (encode_resize rows cols) ≡ ok (rows, cols))
      × (decode_resize (encode_resize rows cols) ≡ ok (rows, cols))
unfolding read_resize encode_resize decode_resize
read_resize-encode_resize rows cols h k =
    let e : rows / 256 % 256 * 256 + rows % 256 ≡ rows = omega arith in
    let f : cols / 256 % 256 * 256 + cols % 256 ≡ cols = omega arith in (cc (e, f), cc (e, f))

-- An int32.
abbrev pub IsInt32 : ℤ → Type 0
IsInt32 (pos n) = n < 2147483648
IsInt32 (negsuc n) = n < 2147483648

-- An exit code that is an int32 comes back from the payload that the agent sends.
pub read_exit-exit_payload : (code : ℤ) → IsInt32 code → read_exit (exit_payload code) ≡ ok code
unfolding read_exit exit_payload to_int32
read_exit-exit_payload (pos n) h = ground arith
read_exit-exit_payload (negsuc n) h = ground arith

-- A frame of at most maxFrameLen bytes that the host's WriteFrame wrote is read back by the host's
-- ReadFrame and by the agent's readFrame alike, and both leave what follows it.
pub read_frame-write_frame :
    (typ : ℕ) (p rest : Text)
    → length p ≤ max_frame_len
    → (sent : Text) × (write_frame buffer [] typ p ≡ ok sent)
      × (read_frame (sent ++ rest) ≡ ok (record { typ = typ; payload = p }, rest))
      × (agent_read_frame (sent ++ rest) ≡ ok (record { typ = typ; payload = p }, rest))
read_frame-write_frame typ p rest h = (
  frame_bytes typ p,
  write_frame-buffer [] typ p,
  read_frame-frame_bytes typ p rest h,
  agent_read_frame-frame_bytes typ p rest (omega arith),
)
