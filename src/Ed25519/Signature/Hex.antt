-- ===== src/Ed25519/Signature/Hex.antt =====
-- comp/src/ed25519.rs: `from_hex32` and `to_hex`.
use nmerkar.Base.{
  ℕ, ◌+◌, ◌-◌, ◌*◌, ◌%◌, ◌^◌, ◌<◌, ◌≡◌, refl, ap, arith, bit_and, bit_or, Bool, true, false, ◌&&◌,
  List, [], ◌∷◌, Option, none, some, if◌then◌else◌, leb, ◌==◌, ==_iff, every_below, every_below-at,
  length, get_or, IsBytes, Text, codes, ◌>>>◌, ◌<<<◌,
}

-- `nibble`
abbrev pub nibble : ℕ → Option ℕ
nibble c =
    if leb b'0' c && leb c b'9'
    then some (c - b'0')
    else if leb b'a' c && leb c b'f'
    then some (c - b'a' + 10)
    else if leb b'A' c && leb c b'F'
    then some (c - b'A' + 10)
    else none

-- One byte from two digits; `?` leaves at the first digit that is none.
abbrev pub byte_of : Option ℕ → Option ℕ → Option ℕ
byte_of (some h) (some l) = some (bit_or (h <<< 4 % 2 ^ 8) l)
byte_of (some h) none = none
byte_of none _ = none

abbrev pub prepend : Option ℕ → Option (List ℕ) → Option (List ℕ)
prepend (some b) (some bs) = some (b ∷ bs)
prepend (some b) none = none
prepend none _ = none

-- The loop of `from_hex32` over pairs of digits.
unfoldable pub digit_pairs : Text → Option (List ℕ)
digit_pairs (h ∷ l ∷ s) = prepend (byte_of (nibble h) (nibble l)) (digit_pairs s)
digit_pairs _ = some []

unfoldable pub from_hex32 : Text → Option (List ℕ)
from_hex32 s = if length s == 64 then digit_pairs s else none

-- `HEX[d]`
abbrev pub hex_digit : ℕ → ℕ
hex_digit d = get_or (codes "0123456789abcdef") d 0

unfoldable pub to_hex : List ℕ → Text
to_hex [] = []
to_hex (b ∷ bs) = hex_digit (b >>> 4) ∷ hex_digit (bit_and b 15) ∷ to_hex bs

-- What the two digits of a byte are read as.
abbrev reread : ℕ → Option ℕ
reread b = byte_of (nibble (hex_digit (b >>> 4))) (nibble (hex_digit (bit_and b 15)))

abbrev is_number : Option ℕ → ℕ → Bool
is_number none b = false
is_number (some n) b = n == b

is_number-eq : (o : Option ℕ) (b : ℕ) → is_number o b ≡ true → o ≡ some b
is_number-eq none b h = absurd cc
is_number-eq (some n) b h = ap some ((==_iff n b).0 h)

byte_table : every_below (λ b. is_number (reread b) b) 256 ≡ true
byte_table = refl

reread_byte : (b : ℕ) → b < 256 → reread b ≡ some b
reread_byte b h =
    is_number-eq (reread b) b (every_below-at (λ b. is_number (reread b) b) 256 b byte_table h)

digit_pairs-to_hex : (bs : List ℕ) → IsBytes bs → digit_pairs (to_hex bs) ≡ some bs
unfolding digit_pairs to_hex
digit_pairs-to_hex [] h = refl
digit_pairs-to_hex (b ∷ bs) (small, h) = rw (reread_byte b small, digit_pairs-to_hex bs h) refl

length-to_hex : (bs : List ℕ) → length (to_hex bs) ≡ 2 * length bs
unfolding to_hex
length-to_hex [] = refl
length-to_hex (b ∷ bs) = omega (arith, length-to_hex bs)

-- `from_hex32` reads the text that `to_hex` writes for 32 bytes as these bytes.
pub from_hex32-to_hex :
    (bs : List ℕ) → IsBytes bs → length bs ≡ 32 → from_hex32 (to_hex bs) ≡ some bs
unfolding from_hex32
from_hex32-to_hex bs h len =
    let n : length (to_hex bs) ≡ 64 = omega (arith, length-to_hex bs, len) in
    rw n (digit_pairs-to_hex bs h)
