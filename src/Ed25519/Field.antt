-- ===== src/Ed25519/Field.antt =====
-- comp/src/ed25519.rs: `Fe`, five 51-bit limbs modulo 2^255 - 19, and its arithmetic.
-- A `u64` or `u128` sum is cut to its width once: cutting each partial sum gives the same.
-- The loops over the limbs are written out limb by limb.
pub mod Carry
pub mod Mul
pub mod Add
pub mod Encode
pub mod Power
pub mod Pack
pub mod Decode
use nmerkar.Base.{
  ℕ, ◌+◌, ◌-◌, ◌*◌, ◌/◌, ◌%◌, ◌^◌, bit_and, bit_or, u64, u128, ◌>>>◌, ◌<<<◌, Bool, List, [], ◌∷◌,
  zero, suc, if◌then◌else◌, ◌++◌, take, drop, le_value, le_bytes, text_eq,
}
use nmerkar.Ed25519.Digits.{bit_at}

pub record Fe : Type 0 where
  pub l0 : ℕ
  pub l1 : ℕ
  pub l2 : ℕ
  pub l3 : ℕ
  pub l4 : ℕ

-- `MASK51`
abbrev pub mask_51 : ℕ
mask_51 = 2 ^ 51 - 1

-- `x & MASK51`
unfoldable pub mask51 : ℕ → ℕ
mask51 x = bit_and x mask_51

-- `Fe::ZERO`, `Fe::ONE`
abbrev pub fe_zero : Fe
fe_zero = record { l0 = 0; l1 = 0; l2 = 0; l3 = 0; l4 = 0 }

abbrev pub fe_one : Fe
fe_one = record { l0 = 1; l1 = 0; l2 = 0; l3 = 0; l4 = 0 }

-- `Fe::carry`, the loop over the limbs and then the carry out of the top limb.
unfoldable pub carry : Fe → Fe
carry t =
    let t1 = u64 (t.l1 + t.l0 >>> 51) in
    let t2 = u64 (t.l2 + t1 >>> 51) in
    let t3 = u64 (t.l3 + t2 >>> 51) in
    let t4 = u64 (t.l4 + t3 >>> 51) in
    let t0 = u64 (mask51 t.l0 + 19 * t4 >>> 51) in
    record {
      l0 = mask51 t0;
      l1 = u64 (mask51 t1 + t0 >>> 51);
      l2 = mask51 t2;
      l3 = mask51 t3;
      l4 = mask51 t4;
    }

-- The five `u128` accumulators of `fe_mul`.
pub record Wide : Type 0 where
  pub r0 : ℕ
  pub r1 : ℕ
  pub r2 : ℕ
  pub r3 : ℕ
  pub r4 : ℕ

-- `(x as u128) * 19`
abbrev pub f19 : ℕ → ℕ
f19 x = x * 19

-- The products of `fe_mul`, the high ones folded by 2^255 = 19.
unfoldable pub products : Fe → Fe → Wide
products a b = record {
  r0 = u128 (a.l0 * b.l0 + f19 a.l1 * b.l4 + f19 a.l2 * b.l3 + f19 a.l3 * b.l2 + f19 a.l4 * b.l1);
  r1 = u128 (a.l0 * b.l1 + a.l1 * b.l0 + f19 a.l2 * b.l4 + f19 a.l3 * b.l3 + f19 a.l4 * b.l2);
  r2 = u128 (a.l0 * b.l2 + a.l1 * b.l1 + a.l2 * b.l0 + f19 a.l3 * b.l4 + f19 a.l4 * b.l3);
  r3 = u128 (a.l0 * b.l3 + a.l1 * b.l2 + a.l2 * b.l1 + a.l3 * b.l0 + f19 a.l4 * b.l4);
  r4 = u128 (a.l0 * b.l4 + a.l1 * b.l3 + a.l2 * b.l2 + a.l3 * b.l1 + a.l4 * b.l0);
}

-- The carries of `fe_mul`, from the accumulators to the limbs.
unfoldable pub narrow : Wide → Fe
narrow r =
    let r1 = u128 (r.r1 + r.r0 >>> 51) in
    let r2 = u128 (r.r2 + r1 >>> 51) in
    let r3 = u128 (r.r3 + r2 >>> 51) in
    let r4 = u128 (r.r4 + r3 >>> 51) in
    let t0 = u64 (mask51 (u64 r.r0) + u64 (r4 >>> 51) * 19) in
    record {
      l0 = mask51 t0;
      l1 = u64 (mask51 (u64 r1) + t0 >>> 51);
      l2 = mask51 (u64 r2);
      l3 = mask51 (u64 r3);
      l4 = mask51 (u64 r4);
    }

unfoldable pub fe_mul : Fe → Fe → Fe
fe_mul a b = narrow (products a b)

abbrev pub fe_sq : Fe → Fe
fe_sq a = fe_mul a a

unfoldable pub fe_add : Fe → Fe → Fe
fe_add a b = carry (record {
  l0 = u64 (a.l0 + b.l0);
  l1 = u64 (a.l1 + b.l1);
  l2 = u64 (a.l2 + b.l2);
  l3 = u64 (a.l3 + b.l3);
  l4 = u64 (a.l4 + b.l4);
})

-- `a + p - b` on `u64`: 2^64 is added before the subtraction, which stops at 0 here.
abbrev pub biased : ℕ → ℕ → ℕ → ℕ
biased a p b = u64 (u64 (a + p) + 2 ^ 64 - b)

-- `fe_sub`, biased by twice the prime.
unfoldable pub fe_sub : Fe → Fe → Fe
fe_sub a b = carry (record {
  l0 = biased a.l0 4503599627370458 b.l0;
  l1 = biased a.l1 4503599627370494 b.l1;
  l2 = biased a.l2 4503599627370494 b.l2;
  l3 = biased a.l3 4503599627370494 b.l3;
  l4 = biased a.l4 4503599627370494 b.l4;
})

unfoldable pub fe_neg : Fe → Fe
fe_neg a = fe_sub fe_zero a

-- `u64::from_le_bytes(s[i..i + 8])`
abbrev pub ld : List ℕ → ℕ → ℕ
ld s i = le_value (take 8 (drop i s))

-- `Fe::from_bytes`
unfoldable pub from_bytes : List ℕ → Fe
from_bytes s = record {
  l0 = mask51 (ld s 0);
  l1 = mask51 (ld s 6 >>> 3);
  l2 = mask51 (ld s 12 >>> 6);
  l3 = mask51 (ld s 19 >>> 1);
  l4 = mask51 (ld s 24 >>> 12);
}

-- The first half of `Fe::to_bytes`: `q` is 1 iff the value is at least the prime; adding `19 * q`
-- and dropping the bit 255 subtracts the prime then.
unfoldable pub reduce : Fe → Fe
reduce t =
    let q0 = u64 (t.l0 + 19) >>> 51 in
    let q1 = u64 (t.l1 + q0) >>> 51 in
    let q2 = u64 (t.l2 + q1) >>> 51 in
    let q3 = u64 (t.l3 + q2) >>> 51 in
    let q = u64 (t.l4 + q3) >>> 51 in
    let t0 = u64 (t.l0 + 19 * q) in
    let t1 = u64 (t.l1 + t0 >>> 51) in
    let t2 = u64 (t.l2 + t1 >>> 51) in
    let t3 = u64 (t.l3 + t2 >>> 51) in
    let t4 = u64 (t.l4 + t3 >>> 51) in
    record { l0 = mask51 t0; l1 = mask51 t1; l2 = mask51 t2; l3 = mask51 t3; l4 = mask51 t4 }

-- The second half: the 255 bits as four little-endian words.
unfoldable pub pack : Fe → List ℕ
pack t =
    let w0 = bit_or t.l0 (u64 (t.l1 <<< 51)) in
    let w1 = bit_or (t.l1 >>> 13) (u64 (t.l2 <<< 38)) in
    let w2 = bit_or (t.l2 >>> 26) (u64 (t.l3 <<< 25)) in
    let w3 = bit_or (t.l3 >>> 39) (u64 (t.l4 <<< 12)) in
    le_bytes 8 w0 ++ (le_bytes 8 w1 ++ (le_bytes 8 w2 ++ le_bytes 8 w3))

-- `Fe::to_bytes`
unfoldable pub to_bytes : Fe → List ℕ
to_bytes a = pack (reduce (carry a))

-- `a == b` on byte arrays
unfoldable pub fe_eq : Fe → Fe → Bool
fe_eq a b = text_eq (to_bytes a) (to_bytes b)

-- One round of `fe_pow`: square, and multiply where the bit is set.
unfoldable pub pow_round : Fe → Bool → Fe → Fe
pow_round z set r = if set then fe_mul (fe_sq r) z else fe_sq r

-- The loop of `fe_pow` over the bits `n - 1, …, 0`.
unfoldable pub pow_loop : Fe → List ℕ → ℕ → Fe → Fe
pow_loop z e zero r = r
pow_loop z e (suc i) r = pow_loop z e i (pow_round z (bit_at 64 e i) r)

unfoldable pub fe_pow : Fe → List ℕ → Fe
fe_pow z e = pow_loop z e 256 fe_one

-- `p_minus_2`
abbrev pub p_minus_2 : List ℕ
p_minus_2 = 0xffffffffffffffeb ∷ 0xffffffffffffffff ∷ 0xffffffffffffffff ∷ 0x7fffffffffffffff ∷ []

-- `sqrt_exp`
abbrev pub sqrt_exp : List ℕ
sqrt_exp = 0xfffffffffffffffe ∷ 0xffffffffffffffff ∷ 0xffffffffffffffff ∷ 0x0fffffffffffffff ∷ []

unfoldable pub fe_invert : Fe → Fe
fe_invert z = fe_pow z p_minus_2
