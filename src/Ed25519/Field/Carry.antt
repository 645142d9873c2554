-- ===== src/Ed25519/Field/Carry.antt =====
-- What a carry keeps: the value modulo 2^255 - 19, with limbs back under their bound.
use native.Mathlib.Nat.{add-mul-mod_self_left, mod-add-mod, mod-add-div}
use nmerkar.Base.{
  ℕ, ◌+◌, ◌-◌, ◌*◌, ◌/◌, ◌%◌, ◌^◌, ◌<◌, ◌≡◌, refl, sym, ap, ◌∙◌, arith, bit_and_ones, u64,
}
use nmerkar.Ed25519.Field.{Fe, mask51, carry}

-- 2^255 - 19
abbrev pub prime : ℕ
prime = 2 ^ 255 - 19

-- The number that five limbs stand for.
abbrev pub value : Fe → ℕ
value a = a.l0 + 2 ^ 51 * a.l1 + 2 ^ 102 * a.l2 + 2 ^ 153 * a.l3 + 2 ^ 204 * a.l4

-- Every limb is below the bound.
pub record Below (bound : ℕ) (a : Fe) : Type 0 where
  pub b0 : a.l0 < bound
  pub b1 : a.l1 < bound
  pub b2 : a.l2 < bound
  pub b3 : a.l3 < bound
  pub b4 : a.l4 < bound

-- The bound that every operation of the field keeps.
abbrev pub IsLoose : Fe → Type 0
IsLoose = Below (2 ^ 51 + 2 ^ 13)

pub mask51_lem : (x : ℕ) → mask51 x ≡ x % 2 ^ 51
unfolding mask51
mask51_lem x = bit_and_ones 51 x

pub mod_of_multiple : (x y k : ℕ) → x ≡ y + prime * k → x % prime ≡ y % prime
mod_of_multiple x y k e = ap (λ (t : ℕ). t % prime) e ∙ add-mul-mod_self_left y prime k

pub add_congr : (x y k : ℕ) → x % prime ≡ y % prime → (x + k) % prime ≡ (y + k) % prime
add_congr x y k e =
    sym (mod-add-mod x prime k) ∙ ap (λ (t : ℕ). (t + k) % prime) e ∙ mod-add-mod y prime k

pub mul_congr : (x y k : ℕ) → x % prime ≡ y % prime → x * k % prime ≡ y * k % prime
mul_congr x y k e = residue x ∙ ap (λ (t : ℕ). t * k % prime) e ∙ sym (residue y)
  where
    residue : (z : ℕ) → z * k % prime ≡ z % prime * k % prime
    residue z =
        mod_of_multiple (z * k) (z % prime * k) (z / prime * k)
          (ap (λ (t : ℕ). t * k) (sym (mod-add-div z prime)) ∙ grind arith)

-- One pass of carries over five limbs `x`, which leaves `y` before masking: nothing is lost but
-- the carry out of the top.
pub pass_value :
    (x0 x1 x2 x3 x4 y1 y2 y3 y4 : ℕ)
    → y1 ≡ x1 + x0 / 2 ^ 51
    → y2 ≡ x2 + y1 / 2 ^ 51
    → y3 ≡ x3 + y2 / 2 ^ 51
    → y4 ≡ x4 + y3 / 2 ^ 51
    → x0 + 2 ^ 51 * x1 + 2 ^ 102 * x2 + 2 ^ 153 * x3 + 2 ^ 204 * x4
      ≡ x0 % 2 ^ 51
        + 2 ^ 51 * (y1 % 2 ^ 51)
        + 2 ^ 102 * (y2 % 2 ^ 51)
        + 2 ^ 153 * (y3 % 2 ^ 51)
        + 2 ^ 204 * (y4 % 2 ^ 51)
        + 2 ^ 255 * (y4 / 2 ^ 51)
pass_value x0 x1 x2 x3 x4 y1 y2 y3 y4 e1 e2 e3 e4 = omega arith

-- Folding the carry out of the top back in, 19 times, takes off as many primes.
pub fold_value :
    (z0 m0 m1 m2 m3 m4 top : ℕ)
    → z0 ≡ m0 + 19 * top
    → m0 + 2 ^ 51 * m1 + 2 ^ 102 * m2 + 2 ^ 153 * m3 + 2 ^ 204 * m4 + 2 ^ 255 * top
      ≡ z0 % 2 ^ 51
        + 2 ^ 51 * (m1 + z0 / 2 ^ 51)
        + 2 ^ 102 * m2
        + 2 ^ 153 * m3
        + 2 ^ 204 * m4
        + prime * top
fold_value z0 m0 m1 m2 m3 m4 top e = omega arith

-- Under the bound no sum wraps: the carry in exact arithmetic.
abbrev exact : Fe → Fe
exact t =
    let y1 = t.l1 + t.l0 / 2 ^ 51 in
    let y2 = t.l2 + y1 / 2 ^ 51 in
    let y3 = t.l3 + y2 / 2 ^ 51 in
    let y4 = t.l4 + y3 / 2 ^ 51 in
    let z0 = t.l0 % 2 ^ 51 + 19 * (y4 / 2 ^ 51) in
    record {
      l0 = z0 % 2 ^ 51;
      l1 = y1 % 2 ^ 51 + z0 / 2 ^ 51;
      l2 = y2 % 2 ^ 51;
      l3 = y3 % 2 ^ 51;
      l4 = y4 % 2 ^ 51;
    }

carry-exact : (t : Fe) → Below (2 ^ 62) t → carry t ≡ exact t
unfolding carry
carry-exact t b =
    let y1 = t.l1 + t.l0 / 2 ^ 51 in
    let y2 = t.l2 + y1 / 2 ^ 51 in
    let y3 = t.l3 + y2 / 2 ^ 51 in
    let y4 = t.l4 + y3 / 2 ^ 51 in
    let z0 = t.l0 % 2 ^ 51 + 19 * (y4 / 2 ^ 51) in
    let w1 : u64 y1 ≡ y1 = omega arith in
    let w2 : u64 y2 ≡ y2 = omega arith in
    let w3 : u64 y3 ≡ y3 = omega arith in
    let w4 : u64 y4 ≡ y4 = omega arith in
    let w0 : u64 z0 ≡ z0 = omega arith in
    let w5 : u64 (y1 % 2 ^ 51 + z0 / 2 ^ 51) ≡ y1 % 2 ^ 51 + z0 / 2 ^ 51 = omega arith in
    simp mask51_lem (rw (w1, w2, w3, w4) (rw w0 (rw w5)))

-- A carry keeps the value modulo the prime.
pub value-carry : (t : Fe) → Below (2 ^ 62) t → value (carry t) % prime ≡ value t % prime
value-carry t b =
    let y1 = t.l1 + t.l0 / 2 ^ 51 in
    let y2 = t.l2 + y1 / 2 ^ 51 in
    let y3 = t.l3 + y2 / 2 ^ 51 in
    let y4 = t.l4 + y3 / 2 ^ 51 in
    let z0 = t.l0 % 2 ^ 51 + 19 * (y4 / 2 ^ 51) in
    let whole = pass_value t.l0 t.l1 t.l2 t.l3 t.l4 y1 y2 y3 y4 refl refl refl refl in
    let folded =
      fold_value z0 (t.l0 % 2 ^ 51) (y1 % 2 ^ 51) (y2 % 2 ^ 51) (y3 % 2 ^ 51) (y4 % 2 ^ 51)
        (y4 / 2 ^ 51) refl in
    rw (carry-exact t b)
      (sym (mod_of_multiple (value t) (value (exact t)) (y4 / 2 ^ 51) (whole ∙ folded)))

-- After a carry the limbs are back under the bound.
pub carry-IsLoose : (t : Fe) → Below (2 ^ 62) t → IsLoose (carry t)
carry-IsLoose t b = rw (carry-exact t b) (omega arith)
