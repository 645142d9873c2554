-- ===== src/Base/Words.antt =====
-- Machine words as native numbers: a `u64` sum or product is written with its wrap, a shift as a
-- product or a quotient, a mask or a union of fields by the native bit operations.
use Prim.Native.Nat.{ℕ, zero, suc, ◌+◌, ◌-◌, ◌*◌, ◌/◌, ◌%◌, ◌^◌, ◌≤◌, ◌<◌, min, max}
use Prim.Native.Nat.{bit_and, bit_or, digits, bit_and-bitwise, bit_or-bitwise}
use mathlib.Core.Path.{◌≡◌, refl, ap, ◌∙◌}
use native.Mathlib.Nat.{
  pow-suc, one-le-pow, mod-lt, mod-eq_of_lt, div-add-mod, mul-add-mod_self_left,
}
use native.Mathlib.Omega.{arith}

abbrev pub u8 : ℕ → ℕ
u8 n = n % 2 ^ 8

abbrev pub u32 : ℕ → ℕ
u32 n = n % 2 ^ 32

abbrev pub u64 : ℕ → ℕ
u64 n = n % 2 ^ 64

abbrev pub u128 : ℕ → ℕ
u128 n = n % 2 ^ 128

infixl 75 ◌<<<◌ ◌>>>◌
abbrev pub ◌<<<◌ : ℕ → ℕ → ℕ
x <<< k = x * 2 ^ k

abbrev pub ◌>>>◌ : ℕ → ℕ → ℕ
x >>> k = x / 2 ^ k

-- Any two digit counts that cover the first number give the same result.
digits_enough :
    (z : ℕ → ℕ) (f : ℕ → ℕ → ℕ) (n m a b : ℕ) → a ≤ n → a ≤ m → digits z f n a b ≡ digits z f m a b
digits_enough z f zero m zero b h k = elim m as (λ m. z b ≡ digits z f m 0 b) [
  | zero ↦ refl
  | suc _ ↦ refl
]
digits_enough z f zero m (suc a) b h k = absurd (omega arith)
digits_enough z f (suc n) zero zero b h k = refl
digits_enough z f (suc n) (suc m) zero b h k = refl
digits_enough z f (suc n) zero (suc a) b h k = absurd (omega arith)
digits_enough z f (suc n) (suc m) (suc a) b h k =
    ap (λ (t : ℕ). t * 2 + f (suc a % 2) (b % 2))
      (digits_enough z f n m (suc a / 2) (b / 2) (omega arith) (omega arith))

-- The lowest digit of a conjunction.
bit_and_low : (a b : ℕ) → bit_and a b ≡ bit_and (a / 2) (b / 2) * 2 + min (a % 2) (b % 2)
bit_and_low zero b = omega (arith, bit_and-bitwise 0 b, bit_and-bitwise 0 (b / 2))
bit_and_low (suc a) b = omega (
  arith,
  bit_and-bitwise (suc a) b,
  bit_and-bitwise (suc a / 2) (b / 2),
  digits_enough (λ b. 0) min a (suc a / 2) (suc a / 2) (b / 2) (omega arith) (omega arith),
)

-- The lowest digit of a disjunction.
bit_or_low : (a b : ℕ) → bit_or a b ≡ bit_or (a / 2) (b / 2) * 2 + max (a % 2) (b % 2)
bit_or_low zero b = omega (arith, bit_or-bitwise 0 b, bit_or-bitwise 0 (b / 2))
bit_or_low (suc a) b = omega (
  arith,
  bit_or-bitwise (suc a) b,
  bit_or-bitwise (suc a / 2) (b / 2),
  digits_enough (λ b. b) max a (suc a / 2) (suc a / 2) (b / 2) (omega arith) (omega arith),
)

bit_and-zero : (bound a : ℕ) → a ≤ bound → bit_and a 0 ≡ 0
bit_and-zero bound zero h = omega (arith, bit_and-bitwise 0 0)
bit_and-zero zero (suc a) h = absurd (omega arith)
bit_and-zero (suc bound) (suc a) h =
    omega (arith, bit_and_low (suc a) 0, bit_and-zero bound (suc a / 2) (omega arith))

-- A remainder by an even number, from its half.
mod-double : (m a : ℕ) → 0 < m → a % (m * 2) ≡ a / 2 % m * 2 + a % 2
mod-double m a h =
    let q = a / 2 / m in
    let r = a / 2 % m * 2 + a % 2 in
    let small : r < m * 2 = omega (arith, mod-lt (a / 2) h) in
    let whole : a ≡ m * 2 * q + r = omega (arith, div-add-mod (a / 2) m) in
    ap (λ (t : ℕ). t % (m * 2)) whole ∙ mul-add-mod_self_left (m * 2) q r ∙ mod-eq_of_lt small

-- A mask of `k` ones takes the remainder by `2 ^ k`.
pub bit_and_ones : (k a : ℕ) → bit_and a (2 ^ k - 1) ≡ a % 2 ^ k
bit_and_ones zero a = omega (arith, bit_and-zero a a (omega arith))
bit_and_ones (suc k) a = ground (
  arith,
  half_ones,
  bit_and_low a (2 ^ suc k - 1),
  pow-suc 2 k,
  one-le-pow k 2 (omega arith),
  bit_and_ones k (a / 2),
  ap (λ (t : ℕ). a % t) (pow-suc 2 k),
  mod-double (2 ^ k) a (one-le-pow k 2 (omega arith)),
)
  where
    half_ones : (2 ^ suc k - 1) / 2 ≡ 2 ^ k - 1
    half_ones = omega (arith, pow-suc 2 k, one-le-pow k 2 (omega arith))

-- Fields that do not overlap add up.
pub bit_or_fields : (k low high : ℕ) → low < 2 ^ k → bit_or low (high * 2 ^ k) ≡ low + high * 2 ^ k
bit_or_fields zero low high h =
    let none_low : low ≡ 0 = omega arith in rw none_low (omega (arith, bit_or-bitwise 0 (high * 1)))
bit_or_fields (suc k) low high h = ground (
  arith,
  half_high,
  bit_or_low low (high * 2 ^ suc k),
  ap (λ (t : ℕ). high * t) (pow-suc 2 k),
  bit_or_fields k (low / 2) high (omega (arith, pow-suc 2 k)),
)
  where
    half_high : high * 2 ^ suc k / 2 ≡ high * 2 ^ k
    half_high = omega (arith, ap (λ (t : ℕ). high * t) (pow-suc 2 k))
