-- ===== src/Config/Parsers.antt =====
-- The parsers of Go's library that the validation calls: `netip.ParseAddr` and
-- `time.ParseDuration`. They are a parameter of the model.
use microbe.Base.{ℤ, List, ℕ, Bool, true, false, Option, Text}

-- A `netip.Addr`: the four or the sixteen bytes.
pub data Addr : Type 0 where
  v4 : List ℕ → Addr
  v6 : List ℕ → Addr

-- `Addr.Is6`
abbrev pub is6 : Addr → Bool
is6 (v4 bytes) = false
is6 (v6 bytes) = true

pub record Parsers : Type 0 where
  pub parse_addr : Text → Option Addr
  pub parse_duration : Text → Option ℤ  -- in nanoseconds
