-- ===== src/Config/Names.antt =====
-- internal/config/validate.go: `nameRe`, the pattern `^[a-z][a-z0-9_-]{0,31}$`.
use microbe.Base.{ℕ, Bool, true, false, ◌&&◌, ◌||◌, [], ◌∷◌, Text, length, leb, ◌==◌}

abbrev pub max_name_len : ℕ
max_name_len = 31

-- `[a-z]`
abbrev pub is_lower : ℕ → Bool
is_lower c = leb b'a' c && leb c b'z'

-- `[a-z0-9_-]`
abbrev pub is_name_char : ℕ → Bool
is_name_char c = is_lower c || (leb b'0' c && leb c b'9') || c == b'_' || c == b'-'

unfoldable pub all_name_chars : Text → Bool
all_name_chars [] = true
all_name_chars (c ∷ cs) = is_name_char c && all_name_chars cs

-- `nameRe.MatchString`
unfoldable pub name_ok : Text → Bool
unfolding all_name_chars
name_ok [] = false
name_ok (c ∷ cs) = is_lower c && all_name_chars cs && leb (length cs) max_name_len
