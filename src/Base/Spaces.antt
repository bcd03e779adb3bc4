-- ===== src/Base/Spaces.antt =====
-- `strings.TrimSpace`, and white space as `bytes.Fields` reads it, on ASCII.
use Prim.Native.Nat.{ℕ}
use mathlib.Core.Bool.{Bool, ◌&&◌, ◌||◌}
use mathlib.Core.List.{[], ◌∷◌}
use microbe.Base.Tests.{leb, ◌==◌, if◌then◌else◌}
use microbe.Base.Texts.{Text}

unfoldable pub is_space : ℕ → Bool
is_space c = (leb 9 c && leb c 13) || c == 32

unfoldable pub trim_left : Text → Text
unfolding is_space
trim_left [] = []
trim_left (c ∷ cs) = let rest = trim_left cs in if is_space c then rest else c ∷ cs

unfoldable pub reverse_onto : Text → Text → Text
reverse_onto acc [] = acc
reverse_onto acc (c ∷ cs) = reverse_onto (c ∷ acc) cs

-- `strings.TrimSpace`, on ASCII.
unfoldable pub trim_space : Text → Text
unfolding trim_left reverse_onto
trim_space s = reverse_onto [] (trim_left (reverse_onto [] (trim_left s)))
