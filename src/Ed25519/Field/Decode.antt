-- ===== src/Ed25519/Field/Decode.antt =====
-- `Fe::from_bytes` reads the low 255 bits of a little-endian 32-byte string.
use nmerkar.Base.{ℕ, ◌/◌, ◌%◌, ◌^◌, ◌≡◌, arith, List, length, le_value, IsBytes, le_value_slice}
use nmerkar.Ed25519.Field.{mask51, ld, from_bytes}
use nmerkar.Ed25519.Field.Carry.{value, Below, mask51_lem}

-- From 32 bytes `from_bytes` reads their number modulo 2^255, lowest byte first, in limbs below
-- 2^51.
pub value-from_bytes :
    (s : List ℕ)
    → IsBytes s
    → length s ≡ 32
    → (value (from_bytes s) ≡ le_value s % 2 ^ 255) × Below (2 ^ 51) (from_bytes s)
unfolding from_bytes
value-from_bytes s h n =
    let whole = le_value s in
    let d0 : mask51 (ld s 0) ≡ whole % 2 ^ 51 =
      omega (arith, mask51_lem (ld s 0), le_value_slice 0 8 s h) in
    let d1 : mask51 (ld s 6 / 2 ^ 3) ≡ whole / 2 ^ 51 % 2 ^ 51 =
      omega (arith, mask51_lem (ld s 6 / 2 ^ 3), le_value_slice 6 8 s h) in
    let d2 : mask51 (ld s 12 / 2 ^ 6) ≡ whole / 2 ^ 102 % 2 ^ 51 =
      omega (arith, mask51_lem (ld s 12 / 2 ^ 6), le_value_slice 12 8 s h) in
    let d3 : mask51 (ld s 19 / 2 ^ 1) ≡ whole / 2 ^ 153 % 2 ^ 51 =
      omega (arith, mask51_lem (ld s 19 / 2 ^ 1), le_value_slice 19 8 s h) in
    let d4 : mask51 (ld s 24 / 2 ^ 12) ≡ whole / 2 ^ 204 % 2 ^ 51 =
      omega (arith, mask51_lem (ld s 24 / 2 ^ 12), le_value_slice 24 8 s h) in
    (omega arith, omega arith)
