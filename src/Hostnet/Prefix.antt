-- ===== src/Hostnet/Prefix.antt =====
-- Addresses and prefixes: what internal/netutil/netutil.go and internal/hostnet/plan.go do with
-- `netip.Prefix`. An address is its bytes.
use Prim.Native.Nat.{min}
use microbe.Base.{
  ℕ, suc, ◌+◌, ◌-◌, ◌*◌, ◌/◌, ◌%◌, ◌^◌, ◌≡◌, refl, ap, not, Option, none, some, List, [], ◌∷◌, ◌++◌,
  Text, length, take, if◌then◌else◌, ◌==◌, Result, ok, err,
}
use microbe.Config.Parsers.{Addr, v4, v6, is6}

pub record Prefix : Type 0 where
  pub addr : Addr
  pub bits : ℕ

abbrev pub bytes_of : Addr → List ℕ
bytes_of (v4 bs) = bs
bytes_of (v6 bs) = bs

-- The k leading bits of a byte.
abbrev pub mask_byte : ℕ → ℕ → ℕ
mask_byte k b = b / 2 ^ (8 - k) * 2 ^ (8 - k)

-- `Prefix.Masked`: the bytes with every bit behind the first k cleared.
unfoldable pub masked : ℕ → List ℕ → List ℕ
masked k [] = []
masked k (b ∷ bs) = mask_byte (min k 8) b ∷ masked (k - 8) bs

abbrev set_last : ℕ → List ℕ → List ℕ
set_last v [] = []
set_last v (b ∷ []) = v ∷ []
set_last v (b ∷ c ∷ bs) = b ∷ set_last v (c ∷ bs)

-- `V6Gateway`: the network address with its last byte set to 1.
unfoldable pub v6_gateway : Prefix → List ℕ
v6_gateway p = set_last 1 (masked p.bits (bytes_of p.addr))

-- `octets[3]++` on a byte.
abbrev bump_last : List ℕ → List ℕ
bump_last [] = []
bump_last (b ∷ []) = ((b + 1) % 256) ∷ []
bump_last (b ∷ c ∷ bs) = b ∷ bump_last (c ∷ bs)

-- `Gateway`
unfoldable pub gateway : Prefix → List ℕ
gateway p = bump_last (masked p.bits (bytes_of p.addr))

-- `binary.BigEndian.Uint32` and `PutUint32` of the four octets.
abbrev pub word : List ℕ → ℕ
word (a ∷ b ∷ c ∷ d ∷ rest) = a * 16777216 + b * 65536 + c * 256 + d
word _ = 0

abbrev pub octets : ℕ → List ℕ
octets n = (n / 16777216 % 256) ∷ (n / 65536 % 256) ∷ (n / 256 % 256) ∷ (n % 256) ∷ []

-- `Broadcast`. The bits of the mask are those that `Masked` cleared, so `|` is a sum.
unfoldable pub broadcast : Prefix → List ℕ
broadcast p = octets (word (masked p.bits (bytes_of p.addr)) + (2 ^ (32 - p.bits) - 1))

pub data AddrError : Type 0 where
  not_ipv6 : AddrError
  odd_bits : AddrError  -- a prefix length that is no multiple of 8
  no_randomness : AddrError  -- the error of `rand.Read`
  no_prefix : AddrError
  bad_prefix : Text → AddrError

-- `randomAddr`; `rand` is the outcome of `rand.Read` into a buffer of that many bytes.
unfoldable pub random_addr : Prefix → (ℕ → Option (List ℕ)) → Result AddrError (List ℕ)
random_addr p rand =
    if not (is6 p.addr)
    then err not_ipv6
    else if not (p.bits % 8 == 0)
    then err odd_bits
    else elim (rand ((128 - p.bits) / 8)) [
      | none ↦ err no_randomness
      | some buf ↦ ok (take (16 - (128 - p.bits) / 8) (masked p.bits (bytes_of p.addr)) ++ buf)
    ]

length-masked : (k : ℕ) (bs : List ℕ) → length (masked k bs) ≡ length bs
unfolding masked
length-masked k [] = refl
length-masked k (b ∷ bs) = ap suc (length-masked (k - 8) bs)
