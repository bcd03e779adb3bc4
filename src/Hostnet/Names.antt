-- ===== src/Hostnet/Names.antt =====
-- Device names: `BridgeName` of internal/hostnet/ops.go and `TapID` of
-- internal/nix/flakegen/stack.go. SHA-256 is a parameter.
use microbe.Base.{
  ℕ, ◌+◌, ◌/◌, ◌%◌, ◌≤◌, [], ◌∷◌, ◌++◌, Text, codes, length, take, length-append, length-take, ltb,
  leb, if◌then◌else◌, arith,
}

abbrev pub max_if_name_len : ℕ
max_if_name_len = 15

abbrev pub hex_digit : ℕ → ℕ
hex_digit n = if ltb n 10 then 48 + n else 87 + n

-- `hex.EncodeToString`
unfoldable pub hex_encode : Text → Text
hex_encode [] = []
hex_encode (b ∷ bs) = hex_digit (b / 16 % 16) ∷ hex_digit (b % 16) ∷ hex_encode bs

module _ (sha256 : Text → Text) where
  -- `BridgeName`
  unfoldable pub bridge_name : Text → Text
  bridge_name stack =
      let full = codes "br-" ++ stack in
      if leb (length full) max_if_name_len
      then full
      else codes "br-" ++ take 12 (hex_encode (sha256 full))

  -- `TapID`
  unfoldable pub tap_id : Text → Text → Text → Text
  tap_id stack svc net =
      let full = codes "mvc-" ++ (stack ++ (codes "-" ++ (svc ++ (codes "-" ++ net)))) in
      if leb (length full) max_if_name_len
      then full
      else codes "mvc-" ++ take 11 (hex_encode (sha256 full))

  short :
      (full hashed : Text)
      → length hashed ≤ 15
      → length (if leb (length full) 15 then full else hashed) ≤ 15
  short full hashed h = ground arith

  hashed_length :
      (n : ℕ) (front sum : Text) → length front + n ≤ 15 → length (front ++ take n sum) ≤ 15
  hashed_length n front sum h =
      omega (arith, length-append {0} front (take n sum), length-take {0} n sum)

  -- Bridge names and tap names fit in the 15 bytes that Linux leaves for an interface name,
  -- whatever the stack, service and network are called.
  pub device_names_fit :
      (stack svc net : Text)
      → (length (bridge_name stack) ≤ max_if_name_len)
        × (length (tap_id stack svc net) ≤ max_if_name_len)
  unfolding bridge_name tap_id
  device_names_fit stack svc net = (
    short (codes "br-" ++ stack) _
        (hashed_length 12 (codes "br-") (hex_encode (sha256 (codes "br-" ++ stack))) (omega arith)),
    short (codes "mvc-" ++ (stack ++ (codes "-" ++ (svc ++ (codes "-" ++ net))))) _ (
        hashed_length 11 (codes "mvc-")
          (hex_encode
            (sha256 (codes "mvc-" ++ (stack ++ (codes "-" ++ (svc ++ (codes "-" ++ net)))))))
          (omega arith)),
  )
