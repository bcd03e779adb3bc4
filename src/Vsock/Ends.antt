-- ===== src/Vsock/Ends.antt =====
-- The loops over the connection end, and take off it exactly what is theirs.
use mathlib.Core.List.{append-nil, append_assoc}
use microbe.Base.{
  ℕ, zero, suc, ◌+◌, ◌≤◌, ◌<◌, ◌≡◌, ◌≢◌, refl, ap, ◌∙◌, [], ◌∷◌, ◌++◌, Text, codes, length,
  length-drop, length-append, All, ◌==◌, true, false, Bool-cases, inl, inr, Result, ok, has_prefix,
  Result-cases, ℤ, arith,
}
use microbe.Vsock.Frame.{Frame, FrameError, read_full, read_payload, read_frame, read_exit}
use microbe.Vsock.Dial.{read_line_from, read_line, handshake, max_handshake_line}
use microbe.Vsock.Session.{out_of_fuel, Transcript, on_frame, exit_outcome, session, run_session}

read_full-length :
    (n : ℕ) (s hdr rest : Text) → read_full n s ≡ ok (hdr, rest) → length rest + n ≡ length s
unfolding read_full
read_full-length n s hdr rest h = ground (arith, length-drop n s)

read_payload-length :
    (n : ℕ) (s p rest : Text) → read_payload n s ≡ ok (p, rest) → length rest ≤ length s
unfolding read_payload
read_payload-length n s p rest h = ground (arith, read_full-length n s p rest)

-- A frame that is read takes bytes off the stream.
pub read_frame-shorter :
    (s rest : Text) (f : Frame) → read_frame s ≡ ok (f, rest) → length rest < length s
unfolding read_frame
read_frame-shorter s rest f h = grind (arith, read_full-length, read_payload-length)

exit_outcome-ne : (r : Result FrameError ℤ) → exit_outcome r ≢ out_of_fuel
unfolding exit_outcome
exit_outcome-ne r = ground arith

on_frame_ends :
    (out errs : Text) (f : Frame) (continue : Text → Text → Transcript)
    → ((o e : Text) → (continue o e).outcome ≢ out_of_fuel)
    → (on_frame out errs f continue).outcome ≢ out_of_fuel
unfolding on_frame
on_frame_ends out errs f continue h = ground (
  arith,
  exit_outcome-ne (read_exit f.payload),
  h (out ++ f.payload) errs,
  h out (errs ++ f.payload),
  h out errs,
)

session_ends :
    (fuel : ℕ) (out errs s : Text)
    → length s < fuel
    → (session fuel out errs s).outcome ≢ out_of_fuel
unfolding session
session_ends zero out errs s h = elim h [ ]
session_ends (suc fuel) out errs s h = elim (Result-cases (read_frame s)) [
  | inl (p, e) ↦
      rw (e, session)
        (on_frame_ends out errs p.0 (λ o e'. session fuel o e' p.1)
          (λ o e'. session_ends fuel o e' p.1 (omega (arith, read_frame-shorter s p.1 p.0 e))))
  | inr (x, e) ↦ rw (e, session) (λ q. cc q)
]

-- Whatever bytes the peer sends, the loop of runAgentSession ends.
pub run_session_ends : (s : Text) → (run_session s).outcome ≢ out_of_fuel
unfolding run_session
run_session_ends s = session_ends (suc (length s)) [] [] s (omega arith)

-- No byte is a newline.
abbrev pub IsLine : Text → Type 0
IsLine = All (λ c. c ≢ 10)

read_line_from-append :
    (buf line rest : Text)
    → IsLine line
    → length buf + length line ≤ max_handshake_line
    → read_line_from buf (line ++ 10 ∷ rest) ≡ ok (buf ++ line, rest)
unfolding read_line_from
read_line_from-append buf [] rest h k = rw (append-nil buf) refl
read_line_from-append buf (c ∷ line) rest h k = ground (
  arith,
  h.0,
  length-append {0} buf (c ∷ []),
  append_assoc buf (c ∷ []) line,
  read_line_from-append (buf ++ c ∷ []) line rest h.1
      (omega (arith, length-append {0} buf (c ∷ []))),
)

-- What is left of the reply line when a byte of it was taken.
IsLine-tail :
    (buf line s rest : Text) (c : ℕ)
    → c ≢ 10
    → (tail : Text) × (line ≡ (buf ++ c ∷ []) ++ tail) × (s ≡ tail ++ 10 ∷ rest) × IsLine tail
    → (tail : Text) × (line ≡ buf ++ tail) × (c ∷ s ≡ tail ++ 10 ∷ rest) × IsLine tail
IsLine-tail buf line s rest c ne (t, p, q, l) =
    (c ∷ t, p ∙ append_assoc buf (c ∷ []) t, ap (λ u. c ∷ u) q, (ne, l))

newline_not : (c : ℕ) → (c == 10) ≡ false → c ≢ 10
newline_not c h = ground arith

read_line_from_inv :
    (buf s line rest : Text)
    → read_line_from buf s ≡ ok (line, rest)
    → (tail : Text) × (line ≡ buf ++ tail) × (s ≡ tail ++ 10 ∷ rest) × IsLine tail
unfolding read_line_from
read_line_from_inv buf [] line rest h = cc
read_line_from_inv buf (c ∷ s) line rest h = elim (Bool-cases (c == 10)) [
  | inl e ↦ ([], ground (arith, append-nil buf), ground arith, tt)
  | inr e ↦
      IsLine-tail buf line s rest c (newline_not c e)
        (read_line_from_inv (buf ++ c ∷ []) s line rest (ground arith))
]

-- readLine returns a line of at most 256 bytes without a newline exactly as the peer sent it, and
-- leaves all that stands behind its newline.
pub read_line-append :
    (line rest : Text)
    → IsLine line
    → length line ≤ max_handshake_line
    → read_line (line ++ 10 ∷ rest) ≡ ok (line, rest)
unfolding read_line
read_line-append line rest h k = read_line_from-append [] line rest h (omega arith)

handshake_line :
    (s rest : Text)
    → handshake s ≡ ok rest
    → (line : Text) × (read_line s ≡ ok (line, rest)) × (has_prefix line (codes "OK ") ≡ true)
unfolding handshake
handshake_line s rest h = elim (Result-cases (read_line s)) [
  | inl (p, e) ↦ (p.0, ground (arith, e), ground (arith, e))
  | inr (x, e) ↦ absurd (ground (arith, e))
]

-- The handshake succeeds only on a stream that starts with a line 'OK ...', and then hands on the
-- bytes behind that line's newline, no more and no fewer.
pub handshake_inv :
    (s rest : Text)
    → handshake s ≡ ok rest
    → (line : Text) × (s ≡ line ++ 10 ∷ rest) × IsLine line × (has_prefix line (codes "OK ") ≡ true)
unfolding read_line
handshake_inv s rest h =
    let (line, e, ok_line) = handshake_line s rest h in
    let (t, p, q, l) = read_line_from_inv [] s line rest e in (t, q, l, rw p at ok_line)
