-- ===== src/Ed25519/Signature/Clamp.antt =====
-- comp/src/ed25519.rs: the scalar that `expand_seed` makes.
use native.Mathlib.Nat.{pow-suc}
use nmerkar.Base.{
  ℕ, zero, suc, ◌+◌, ◌*◌, ◌%◌, ◌^◌, ◌<◌, ◌≤◌, ◌≡◌, refl, ap, arith, bit_and, bit_or, true, ◌&&◌,
  List, [], ◌∷◌, length, take, get_or, le_value, IsBytes, leb, ltb, ◌==◌, every_below,
  every_below-at, and_iff, ==_iff, leb→le, ltb→lt, le_value-take_lt,
}
use nmerkar.Ed25519.Group.{modify}
use nmerkar.Ed25519.Signature.{clamp}

-- A change of the last byte.
pub modify_last :
    (n : ℕ) (f : ℕ → ℕ) (xs : List ℕ)
    → length xs ≡ suc n
    → (le_value (modify n f xs) ≡ le_value (take n xs) + 256 ^ n * f (get_or xs n 0))
      × (take n (modify n f xs) ≡ take n xs)
      × (get_or (modify n f xs) n 0 ≡ f (get_or xs n 0))
      × (length (modify n f xs) ≡ suc n)
unfolding le_value
modify_last n f [] len = absurd (omega arith)
modify_last zero f (x ∷ []) len = (omega arith, refl, refl, refl)
modify_last zero f (x ∷ y ∷ xs) len = absurd (omega arith)
modify_last (suc n) f (x ∷ xs) len =
    let (value, taken, last, count) = modify_last n f xs (omega arith) in
    (
      omega (arith, value, ap (λ (t : ℕ). t * f (get_or xs n 0)) (pow-suc 256 n)),
      ap (λ t. x ∷ t) taken,
      last,
      ap suc count,
    )

modify_last_twice :
    (n : ℕ) (f g : ℕ → ℕ) (xs : List ℕ)
    → length xs ≡ suc n
    → (le_value (modify n g (modify n f xs))
        ≡ le_value (take n xs) + 256 ^ n * g (f (get_or xs n 0)))
      × (length (modify n g (modify n f xs)) ≡ suc n)
modify_last_twice n f g xs len =
    let (value, taken, last, count) = modify_last n f xs len in
    let (value', taken', last', count') = modify_last n g (modify n f xs) count in
    (rw (taken, last) at value', count')

pub IsBytes-modify :
    (n : ℕ) (f : ℕ → ℕ) (xs : List ℕ)
    → ((x : ℕ) → x < 256 → f x < 256)
    → IsBytes xs
    → IsBytes (modify n f xs)
IsBytes-modify zero f [] small h = tt
IsBytes-modify (suc n) f [] small h = tt
IsBytes-modify zero f (x ∷ xs) small h = (small x h.0, h.1)
IsBytes-modify (suc n) f (x ∷ xs) small h = (h.0, IsBytes-modify n f xs small h.1)

pub get_or-IsBytes : (xs : List ℕ) (n : ℕ) → IsBytes xs → get_or xs n 0 < 256
get_or-IsBytes [] n h = omega arith
get_or-IsBytes (x ∷ xs) zero h = h.0
get_or-IsBytes (x ∷ xs) (suc n) h = get_or-IsBytes xs n h.1

-- The lowest byte, and the highest one.
low_table : every_below (λ b. bit_and b 248 % 8 == 0 && ltb (bit_and b 248) 256) 256 ≡ true
low_table = refl

high_table :
    every_below (λ b. leb 64 (bit_or (bit_and b 127) 64) && ltb (bit_or (bit_and b 127) 64) 128) 256
    ≡ true
high_table = refl

low_byte : (b : ℕ) → b < 256 → (bit_and b 248 % 8 ≡ 0) × (bit_and b 248 < 256)
low_byte b h =
    let both =
      every_below-at (λ b. bit_and b 248 % 8 == 0 && ltb (bit_and b 248) 256) 256 b low_table h in
    let (eight, byte) = (and_iff (bit_and b 248 % 8 == 0) (ltb (bit_and b 248) 256)).0 both in
    ((==_iff (bit_and b 248 % 8) 0).0 eight, ltb→lt (bit_and b 248) 256 byte)

high_byte : (b : ℕ) → b < 256 → (64 ≤ bit_or (bit_and b 127) 64) × (bit_or (bit_and b 127) 64 < 128)
high_byte b h =
    let top : ℕ = bit_or (bit_and b 127) 64 in
    let both =
      every_below-at
        (λ b. leb 64 (bit_or (bit_and b 127) 64) && ltb (bit_or (bit_and b 127) 64) 128) 256 b
        high_table h in
    let (least, most) = (and_iff (leb 64 top) (ltb top 128)).0 both in
    (leb→le 64 top least, ltb→lt top 128 most)

-- The clamped scalar of 32 bytes is a multiple of 8 from 2^254 on and below 2^255, in 32 bytes.
pub clamp_lem :
    (a : List ℕ)
    → IsBytes a
    → length a ≡ 32
    → (le_value (clamp a) % 8 ≡ 0)
      × (2 ^ 254 ≤ le_value (clamp a))
      × (le_value (clamp a) < 2 ^ 255)
      × IsBytes (clamp a)
      × (length (clamp a) ≡ 32)
unfolding clamp
clamp_lem [] h len = absurd (omega arith)
clamp_lem (b ∷ bs) (small, h) len =
    let (eight, byte) = low_byte b small in
    let first : List ℕ = bit_and b 248 ∷ bs in
    let (total, count) =
      modify_last_twice 31 (λ x. bit_and x 127) (λ x. bit_or x 64) first (omega arith) in
    let (least, most) = high_byte (get_or first 31 0) (get_or-IsBytes first 31 (byte, h)) in
    let below : le_value (take 31 first) < 256 ^ 31 = le_value-take_lt 31 first (byte, h) in
    let low : le_value (take 31 first) % 8 ≡ 0 = unfold le_value in omega (arith, eight) in
    (
      omega (arith, total, low),
      omega (arith, total, least),
      omega (arith, total, most, below),
      IsBytes-modify 31 (λ x. bit_or x 64) (modify 31 (λ x. bit_and x 127) first) or_byte
          (IsBytes-modify 31 (λ x. bit_and x 127) first and_byte (byte, h)),
      count,
    )
  where
    and_table : every_below (λ x. ltb (bit_and x 127) 256) 256 ≡ true
    and_table = refl

    and_byte : (x : ℕ) → x < 256 → bit_and x 127 < 256
    and_byte x k =
        ltb→lt (bit_and x 127) 256 (every_below-at (λ x. ltb (bit_and x 127) 256) 256 x and_table k)

    or_table : every_below (λ x. ltb (bit_or x 64) 256) 256 ≡ true
    or_table = refl

    or_byte : (x : ℕ) → x < 256 → bit_or x 64 < 256
    or_byte x k =
        ltb→lt (bit_or x 64) 256 (every_below-at (λ x. ltb (bit_or x 64) 256) 256 x or_table k)
