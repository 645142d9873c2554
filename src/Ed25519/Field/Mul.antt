-- ===== src/Ed25519/Field/Mul.antt =====
-- `fe_mul` multiplies modulo 2^255 - 19, wraps nowhere, and keeps the limb bound.
use nmerkar.Base.{ℕ, ◌+◌, ◌-◌, ◌*◌, ◌/◌, ◌%◌, ◌^◌, ◌≤◌, ◌<◌, ◌≡◌, refl, sym, ◌∙◌, arith, u64, u128}
use nmerkar.Ed25519.Field.{Fe, Wide, mask51, f19, products, narrow, fe_mul}
use nmerkar.Ed25519.Field.Carry.{
  prime, value, IsLoose, mask51_lem, mod_of_multiple, pass_value, fold_value,
}

abbrev wide_value : Wide → ℕ
wide_value r = r.r0 + 2 ^ 51 * r.r1 + 2 ^ 102 * r.r2 + 2 ^ 153 * r.r3 + 2 ^ 204 * r.r4

record WideBelow (bound : ℕ) (r : Wide) : Type 0 where
  w0 : r.r0 < bound
  w1 : r.r1 < bound
  w2 : r.r2 < bound
  w3 : r.r3 < bound
  w4 : r.r4 < bound

abbrev exact : Wide → Fe
exact r =
    let y1 = r.r1 + r.r0 / 2 ^ 51 in
    let y2 = r.r2 + y1 / 2 ^ 51 in
    let y3 = r.r3 + y2 / 2 ^ 51 in
    let y4 = r.r4 + y3 / 2 ^ 51 in
    let z0 = r.r0 % 2 ^ 51 + 19 * (y4 / 2 ^ 51) in
    record {
      l0 = z0 % 2 ^ 51;
      l1 = y1 % 2 ^ 51 + z0 / 2 ^ 51;
      l2 = y2 % 2 ^ 51;
      l3 = y3 % 2 ^ 51;
      l4 = y4 % 2 ^ 51;
    }

masked-u64 : (x : ℕ) → mask51 (u64 x) ≡ x % 2 ^ 51
masked-u64 x = mask51_lem (u64 x) ∙ omega arith

-- Under the bound no accumulator wraps, and no bit that a cast to `u64` drops is read.
narrow-exact : (r : Wide) → WideBelow (2 ^ 109) r → narrow r ≡ exact r
unfolding narrow
narrow-exact r b =
    let y1 = r.r1 + r.r0 / 2 ^ 51 in
    let y2 = r.r2 + y1 / 2 ^ 51 in
    let y3 = r.r3 + y2 / 2 ^ 51 in
    let y4 = r.r4 + y3 / 2 ^ 51 in
    let z0 = r.r0 % 2 ^ 51 + 19 * (y4 / 2 ^ 51) in
    let w1 : u128 y1 ≡ y1 = omega arith in
    let w2 : u128 y2 ≡ y2 = omega arith in
    let w3 : u128 y3 ≡ y3 = omega arith in
    let w4 : u128 y4 ≡ y4 = omega arith in
    let w0 : u64 (r.r0 % 2 ^ 51 + u64 (y4 / 2 ^ 51) * 19) ≡ z0 = omega arith in
    let w5 : u64 (y1 % 2 ^ 51 + z0 / 2 ^ 51) ≡ y1 % 2 ^ 51 + z0 / 2 ^ 51 = omega arith in
    let c1 : r.r0 % 2 ^ 51 + u64 (y4 / 2 ^ 51) * 19 ≡ z0 = omega arith in
    rw (w1, w2, w3, w4) (simp masked-u64 (rw w0 (rw c1 (rw w5))))

-- The carries keep the value modulo the prime.
value-narrow :
    (r : Wide)
    → WideBelow (2 ^ 109) r
    → (value (narrow r) % prime ≡ wide_value r % prime) × IsLoose (narrow r)
value-narrow r b =
    let y1 = r.r1 + r.r0 / 2 ^ 51 in
    let y2 = r.r2 + y1 / 2 ^ 51 in
    let y3 = r.r3 + y2 / 2 ^ 51 in
    let y4 = r.r4 + y3 / 2 ^ 51 in
    let z0 = r.r0 % 2 ^ 51 + 19 * (y4 / 2 ^ 51) in
    let whole = pass_value r.r0 r.r1 r.r2 r.r3 r.r4 y1 y2 y3 y4 refl refl refl refl in
    let folded =
      fold_value z0 (r.r0 % 2 ^ 51) (y1 % 2 ^ 51) (y2 % 2 ^ 51) (y3 % 2 ^ 51) (y4 % 2 ^ 51)
        (y4 / 2 ^ 51) refl in
    (
      rw (narrow-exact r b)
          (sym (mod_of_multiple (wide_value r) (value (exact r)) (y4 / 2 ^ 51) (whole ∙ folded))),
      rw (narrow-exact r b) (omega arith),
    )

-- The product of two limbs under the bound.
mul-lt : (x y : ℕ) → x < 2 ^ 51 + 2 ^ 13 → y < 2 ^ 51 + 2 ^ 13 → x * y < 2 ^ 102 + 2 ^ 66
mul-lt x y hx hy = let first : x * y ≤ (2 ^ 51 + 2 ^ 13 - 1) * y = grind arith in omega arith

-- The accumulators are the products, with no wrap.
record Exactly (a b : Fe) (r : Wide) : Type 0 where
  x0 : r.r0 ≡ a.l0 * b.l0 + f19 a.l1 * b.l4 + f19 a.l2 * b.l3 + f19 a.l3 * b.l2 + f19 a.l4 * b.l1
  x1 : r.r1 ≡ a.l0 * b.l1 + a.l1 * b.l0 + f19 a.l2 * b.l4 + f19 a.l3 * b.l3 + f19 a.l4 * b.l2
  x2 : r.r2 ≡ a.l0 * b.l2 + a.l1 * b.l1 + a.l2 * b.l0 + f19 a.l3 * b.l4 + f19 a.l4 * b.l3
  x3 : r.r3 ≡ a.l0 * b.l3 + a.l1 * b.l2 + a.l2 * b.l1 + a.l3 * b.l0 + f19 a.l4 * b.l4
  x4 : r.r4 ≡ a.l0 * b.l4 + a.l1 * b.l3 + a.l2 * b.l2 + a.l3 * b.l1 + a.l4 * b.l0
  small : WideBelow (2 ^ 109) r

row-lt :
    (x : ℕ) (b : Fe)
    → x < 2 ^ 51 + 2 ^ 13
    → IsLoose b
    → (x * b.l0 < 2 ^ 102 + 2 ^ 66)
      × (x * b.l1 < 2 ^ 102 + 2 ^ 66)
      × (x * b.l2 < 2 ^ 102 + 2 ^ 66)
      × (x * b.l3 < 2 ^ 102 + 2 ^ 66)
      × (x * b.l4 < 2 ^ 102 + 2 ^ 66)
row-lt x b h lb = (
  mul-lt x b.l0 h lb.b0,
  mul-lt x b.l1 h lb.b1,
  mul-lt x b.l2 h lb.b2,
  mul-lt x b.l3 h lb.b3,
  mul-lt x b.l4 h lb.b4,
)

products-Exactly : (a b : Fe) → IsLoose a → IsLoose b → Exactly a b (products a b)
unfolding products
products-Exactly a b la lb =
    let row0 = row-lt a.l0 b la.b0 lb in
    let row1 = row-lt a.l1 b la.b1 lb in
    let row2 = row-lt a.l2 b la.b2 lb in
    let row3 = row-lt a.l3 b la.b3 lb in
    let row4 = row-lt a.l4 b la.b4 lb in
    record {
      x0 = omega arith;
      x1 = omega arith;
      x2 = omega arith;
      x3 = omega arith;
      x4 = omega arith;
      small = omega arith;
    }

-- The products with the high ones not folded, and how many primes the folding takes off.
products_value :
    (a b : Fe) (r : Wide)
    → Exactly a b r
    → value a * value b
      ≡ wide_value r
        + prime
          * (a.l1 * b.l4
              + a.l2 * b.l3
              + a.l3 * b.l2
              + a.l4 * b.l1
              + 2 ^ 51 * (a.l2 * b.l4 + a.l3 * b.l3 + a.l4 * b.l2)
              + 2 ^ 102 * (a.l3 * b.l4 + a.l4 * b.l3)
              + 2 ^ 153 * (a.l4 * b.l4))
products_value a b r x = omega arith

-- Where the limbs of both are below the bound 2^51 + 2^13, the value of `fe_mul` is the product
-- modulo 2^255 - 19, and its limbs are below the bound again.
pub value-fe_mul :
    (a b : Fe)
    → IsLoose a
    → IsLoose b
    → (value (fe_mul a b) % prime ≡ value a * value b % prime) × IsLoose (fe_mul a b)
unfolding fe_mul
value-fe_mul a b la lb =
    let x = products-Exactly a b la lb in
    let (same, loose) = value-narrow (products a b) x.small in
    (
      same
          ∙ sym (
              mod_of_multiple (value a * value b) (wide_value (products a b)) _
                (products_value a b (products a b) x)),
      loose,
    )
