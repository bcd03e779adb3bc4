-- ===== src/Base/Decimal.antt =====
-- `strconv.Itoa` and `strconv.Atoi`, with the 64-bit bounds of Go's `int`.
use Prim.Native.Nat.{ℕ, zero, suc, ◌+◌, ◌-◌, ◌*◌, ◌/◌, ◌%◌, ◌<◌}
use mathlib.Core.Path.{◌≡◌, sym, ◌∙◌}
use mathlib.Core.Bool.{◌&&◌}
use mathlib.Core.Option.{Option, none, some}
use mathlib.Core.List.{[], ◌∷◌, ◌++◌}
use native.Mathlib.Omega.{arith}
use microbe.Base.Tests.{ltb, leb, ◌==◌, if◌then◌else◌}
use microbe.Base.Texts.{Text}
use microbe.Base.Int.{ℤ, pos, negsuc}

-- The decimal digits of n; a digit is taken off in each round, so n + 1 rounds are enough.
digits_from : ℕ → ℕ → Text
digits_from zero n = []
digits_from (suc fuel) n =
    let front = digits_from fuel (n / 10) in
    if ltb n 10 then (48 + n) ∷ [] else front ++ (48 + n % 10) ∷ []

unfoldable pub digits : ℕ → Text
unfolding digits_from
digits n = digits_from (suc n) n

-- `strconv.Itoa`
unfoldable pub itoa : ℤ → Text
itoa (pos n) = digits n
itoa (negsuc n) = b'-' ∷ digits (suc n)

-- The value of a run of digits behind those already read; `none` at any other byte.
unfoldable pub value_from : ℕ → Text → Option ℕ
value_from acc [] = some acc
value_from acc (c ∷ cs) = if leb 48 c && leb c 57 then value_from (acc * 10 + (c - 48)) cs else none

unfoldable pub value : Text → Option ℕ
unfolding value_from
value [] = none
value (c ∷ cs) = value_from 0 (c ∷ cs)

abbrev pub max_int64 : ℕ
max_int64 = 9223372036854775807

unfoldable pub positive : Option ℕ → Option ℤ
positive none = none
positive (some n) = if leb n max_int64 then some (pos n) else none

unfoldable pub negative : Option ℕ → Option ℤ
negative none = none
negative (some zero) = some (pos 0)
negative (some (suc n)) = if leb n max_int64 then some (negsuc n) else none

-- `strconv.Atoi`: an optional sign and digits; `none` is its error.
unfoldable pub atoi : Text → Option ℤ
unfolding value positive negative
atoi [] = none
atoi (c ∷ cs) =
    if c == b'+'
    then positive (value cs)
    else if c == b'-'
    then negative (value cs)
    else positive (value (c ∷ cs))

value_from-append :
    (acc d m : ℕ) (s : Text)
    → value_from acc s ≡ some m
    → d < 10
    → value_from acc (s ++ (48 + d) ∷ []) ≡ some (m * 10 + d)
unfolding value_from
value_from-append acc d m [] e h = ground arith
value_from-append acc d m (c ∷ cs) e h =
    ground (arith, value_from-append (acc * 10 + (c - 48)) d m cs)

value_from-digits_from : (fuel n : ℕ) → n < fuel → value_from 0 (digits_from fuel n) ≡ some n
unfolding digits_from value_from
value_from-digits_from zero n h = elim h [ ]
value_from-digits_from (suc fuel) n h = ground (
  arith,
  value_from-digits_from fuel (n / 10),
  value_from-append 0 (n % 10) (n / 10) (digits_from fuel (n / 10)),
)

-- Printing and reading back.
pub value_from-digits : (n : ℕ) → value_from 0 (digits n) ≡ some n
unfolding digits
value_from-digits n = value_from-digits_from (suc n) n (omega arith)

some_inj : (m n : ℕ) → ◌≡◌ {A = Option ℕ} (some m) (some n) → m ≡ n
some_inj m n e = ground arith

-- Two numbers with the same digits are equal.
pub digits_injective : (m n : ℕ) → digits m ≡ digits n → m ≡ n
digits_injective m n e =
    some_inj m n (sym (value_from-digits m) ∙ (λ i. value_from 0 (e i)) ∙ value_from-digits n)
