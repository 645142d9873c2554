-- ===== src/Ed25519/Field/Encode.antt =====
-- `Fe::to_bytes` writes the one representative below 2^255 - 19, so `fe_eq` decides equality of
-- the field.
use native.Mathlib.Nat.{mod-eq_of_lt}
use nmerkar.Base.{ℕ, ◌+◌, ◌*◌, ◌/◌, ◌%◌, ◌^◌, ◌≤◌, ◌<◌, ◌≡◌, refl, sym, ◌∙◌, arith, u64}
use nmerkar.Ed25519.Field.{Fe, reduce}
use nmerkar.Ed25519.Field.Carry.{
  prime, value, Below, IsLoose, mask51_lem, mod_of_multiple, pass_value,
}

-- The comparison with the prime: the carries of `value + 19` out of bit 255.
abbrev over : Fe → ℕ
over t =
    (t.l4 + (t.l3 + (t.l2 + (t.l1 + (t.l0 + 19) / 2 ^ 51) / 2 ^ 51) / 2 ^ 51) / 2 ^ 51) / 2 ^ 51

-- `value + 19` with its carry out of bit 255 taken off.
over_rest : (t : Fe) → (rest : ℕ) × (value t + 19 ≡ rest + 2 ^ 255 * over t) × (rest < 2 ^ 255)
over_rest t =
    let y0 = t.l0 + 19 in
    let y1 = t.l1 + y0 / 2 ^ 51 in
    let y2 = t.l2 + y1 / 2 ^ 51 in
    let y3 = t.l3 + y2 / 2 ^ 51 in
    let y4 = t.l4 + y3 / 2 ^ 51 in
    let whole = pass_value y0 t.l1 t.l2 t.l3 t.l4 y1 y2 y3 y4 refl refl refl refl in
    (
      y0 % 2 ^ 51
          + 2 ^ 51 * (y1 % 2 ^ 51)
          + 2 ^ 102 * (y2 % 2 ^ 51)
          + 2 ^ 153 * (y3 % 2 ^ 51)
          + 2 ^ 204 * (y4 % 2 ^ 51),
      omega (arith, whole),
      omega arith,
    )

abbrev lowered : ℕ → Fe → Fe
lowered q t =
    let y0 = t.l0 + 19 * q in
    let y1 = t.l1 + y0 / 2 ^ 51 in
    let y2 = t.l2 + y1 / 2 ^ 51 in
    let y3 = t.l3 + y2 / 2 ^ 51 in
    let y4 = t.l4 + y3 / 2 ^ 51 in
    record {
      l0 = y0 % 2 ^ 51;
      l1 = y1 % 2 ^ 51;
      l2 = y2 % 2 ^ 51;
      l3 = y3 % 2 ^ 51;
      l4 = y4 % 2 ^ 51;
    }

-- Adding `19 * q` and dropping the bits from 255 on.
lowered_rest :
    (q : ℕ) (t : Fe)
    → (top : ℕ) × (value t + 19 * q ≡ value (lowered q t) + 2 ^ 255 * top)
      × (value (lowered q t) < 2 ^ 255)
lowered_rest q t =
    let y0 = t.l0 + 19 * q in
    let y1 = t.l1 + y0 / 2 ^ 51 in
    let y2 = t.l2 + y1 / 2 ^ 51 in
    let y3 = t.l3 + y2 / 2 ^ 51 in
    let y4 = t.l4 + y3 / 2 ^ 51 in
    let whole = pass_value y0 t.l1 t.l2 t.l3 t.l4 y1 y2 y3 y4 refl refl refl refl in
    (y4 / 2 ^ 51, omega (arith, whole), omega arith)

over-le : (t : Fe) → IsLoose t → over t ≤ 1
over-le t b = omega arith

reduce-lowered : (t : Fe) → IsLoose t → reduce t ≡ lowered (over t) t
unfolding reduce
reduce-lowered t b =
    let q0 = (t.l0 + 19) / 2 ^ 51 in
    let q1 = (t.l1 + q0) / 2 ^ 51 in
    let q2 = (t.l2 + q1) / 2 ^ 51 in
    let q3 = (t.l3 + q2) / 2 ^ 51 in
    let q = (t.l4 + q3) / 2 ^ 51 in
    let y0 = t.l0 + 19 * q in
    let y1 = t.l1 + y0 / 2 ^ 51 in
    let y2 = t.l2 + y1 / 2 ^ 51 in
    let y3 = t.l3 + y2 / 2 ^ 51 in
    let y4 = t.l4 + y3 / 2 ^ 51 in
    let v0 : u64 (t.l0 + 19) ≡ t.l0 + 19 = omega arith in
    let v1 : u64 (t.l1 + q0) ≡ t.l1 + q0 = omega arith in
    let v2 : u64 (t.l2 + q1) ≡ t.l2 + q1 = omega arith in
    let v3 : u64 (t.l3 + q2) ≡ t.l3 + q2 = omega arith in
    let v4 : u64 (t.l4 + q3) ≡ t.l4 + q3 = omega arith in
    let one : q ≤ 1 = over-le t b in
    let w0 : u64 y0 ≡ y0 = omega arith in
    let w1 : u64 y1 ≡ y1 = omega arith in
    let w2 : u64 y2 ≡ y2 = omega arith in
    let w3 : u64 y3 ≡ y3 = omega arith in
    let w4 : u64 y4 ≡ y4 = omega arith in
    rw (v0, v1, v2, v3, v4) (rw (w0, w1, w2, w3, w4) (simp mask51_lem))

-- The representative below the prime.
pub value-reduce : (t : Fe) → IsLoose t → value (reduce t) ≡ value t % prime
value-reduce t b =
    let (rest, e, low) = over_rest t in
    let (top, f, small) = lowered_rest (over t) t in
    let one = over-le t b in
    let below : value (lowered (over t) t) < prime = omega arith in
    let same : value t ≡ value (lowered (over t) t) + prime * over t = omega arith in
    rw (reduce-lowered t b) (
      sym
        (mod_of_multiple (value t) (value (lowered (over t) t)) (over t) same ∙ mod-eq_of_lt below))

pub reduce-Below : (t : Fe) → IsLoose t → Below (2 ^ 51) (reduce t)
reduce-Below t b = rw (reduce-lowered t b) (omega arith)
