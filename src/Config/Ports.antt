-- ===== src/Config/Ports.antt =====
-- internal/config/validate.go: `hostPort`, the host side of a port mapping.
use microbe.Base.{
  ℕ, Bool, ◌&&◌, not, Option, none, some, List, [], ◌∷◌, Text, ◌==◌, if◌then◌else◌, ℤ, pos, int_lt,
  atoi, itoa,
}

abbrev pub min_host_port : ℤ
min_host_port = pos 1

abbrev pub max_host_port : ℤ
max_host_port = pos 65535

-- `s[:strings.Index(s, "/")]`, or s where there is no slash.
unfoldable pub before_slash : Text → Text
before_slash [] = []
before_slash (c ∷ cs) = let rest = before_slash cs in if c == b'/' then [] else c ∷ rest

abbrev cons_field : ℕ → List Text → List Text
cons_field c [] = (c ∷ []) ∷ []
cons_field c (f ∷ fs) = (c ∷ f) ∷ fs

-- `strings.Split(s, sep)` for a separator of one byte.
unfoldable pub split : ℕ → Text → List Text
split sep [] = [] ∷ []
split sep (c ∷ cs) =
    let fields = split sep cs in if c == sep then [] ∷ fields else cons_field c fields

-- Go's `n >= minHostPort && n <= maxHostPort`.
abbrev pub in_port_range : ℤ → Bool
in_port_range n = not (int_lt n min_host_port) && not (int_lt max_host_port n)

-- The port as text, in the form of `strconv.Itoa`; the empty text if it is none.
unfoldable pub port_text : Option ℤ → Text
port_text none = []
port_text (some n) = if in_port_range n then itoa n else []

abbrev pub host_field : List Text → Option Text
host_field (h ∷ g ∷ []) = some h
host_field (ip ∷ h ∷ g ∷ []) = some h
host_field _ = none

abbrev pub field_port : Option Text → Text
field_port none = []
field_port (some f) = port_text (atoi f)

-- "8080:80" and "127.0.0.1:8080:80/tcp" give "8080"; a malformed mapping gives "".
unfoldable pub host_port : Text → Text
unfolding before_slash split port_text
host_port mapping = field_port (host_field (split b':' (before_slash mapping)))
