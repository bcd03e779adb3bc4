-- ===== src/Lifecycle/Identity.antt =====
-- `NewID` of internal/state/id.go, on the sixteen bytes that `rand.Read` gave.
use microbe.Base.{ℕ, ◌+◌, ◌/◌, ◌%◌, List, [], ◌∷◌, ◌++◌, Text, codes, take, drop}
use microbe.Hostnet.Names.{hex_digit}

-- `b & 0x0f | 0x40`: on a byte `&` with 15 is the remainder by 16, and the bits of 64 are free then.
unfoldable pub version_byte : ℕ → ℕ
version_byte b = b % 16 + 64

-- `b & 0x3f | 0x80`
unfoldable pub variant_byte : ℕ → ℕ
variant_byte b = b % 64 + 128

-- `%x` of bytes: two digits to a byte.
unfoldable pub hex_bytes : List ℕ → Text
hex_bytes [] = []
hex_bytes (b ∷ bs) = hex_digit (b / 16) ∷ hex_digit (b % 16) ∷ hex_bytes bs

unfoldable pub stamp_variant : List ℕ → List ℕ
unfolding variant_byte
stamp_variant (b8 ∷ rest) = variant_byte b8 ∷ rest
stamp_variant [] = []

unfoldable pub stamp_version : List ℕ → List ℕ
unfolding version_byte stamp_variant
stamp_version (b6 ∷ b7 ∷ rest) = version_byte b6 ∷ b7 ∷ stamp_variant rest
stamp_version other = other

unfoldable pub stamp : List ℕ → List ℕ
unfolding stamp_version
stamp b = take 6 b ++ stamp_version (drop 6 b)

unfoldable pub new_id : List ℕ → Text
unfolding stamp hex_bytes
new_id bytes =
    let b = stamp bytes in
    hex_bytes (take 4 b)
    ++ (codes "-"
        ++ (hex_bytes (take 2 (drop 4 b))
            ++ (codes "-"
                ++ (hex_bytes (take 2 (drop 6 b))
                    ++ (codes "-"
                        ++ (hex_bytes (take 2 (drop 8 b))
                            ++ (codes "-" ++ hex_bytes (drop 10 b))))))))
