-- ===== src/Ed25519/Field/Add.antt =====
-- `fe_add`, `fe_sub` and `fe_neg` compute modulo 2^255 - 19, and keep the limb bound.
use nmerkar.Base.{ℕ, ◌+◌, ◌*◌, ◌%◌, ◌^◌, ◌≡◌, ap, ◌∙◌, arith, u64}
use nmerkar.Ed25519.Field.{Fe, fe_zero, carry, fe_add, fe_sub, fe_neg, biased}
use nmerkar.Ed25519.Field.Carry.{
  prime, value, Below, IsLoose, mod_of_multiple, add_congr, value-carry, carry-IsLoose,
}

-- Where the limbs of both are below the bound 2^51 + 2^13, the value of `fe_add` is the sum modulo
-- 2^255 - 19, and its limbs are below the bound again.
pub value-fe_add :
    (a b : Fe)
    → IsLoose a
    → IsLoose b
    → (value (fe_add a b) % prime ≡ (value a + value b) % prime) × IsLoose (fe_add a b)
unfolding fe_add
value-fe_add a b la lb =
    let s : Fe = record {
      l0 = u64 (a.l0 + b.l0);
      l1 = u64 (a.l1 + b.l1);
      l2 = u64 (a.l2 + b.l2);
      l3 = u64 (a.l3 + b.l3);
      l4 = u64 (a.l4 + b.l4);
    } in
    let small : Below (2 ^ 62) s = omega arith in
    let total : value s ≡ value a + value b = omega arith in
    (value-carry s small ∙ ap (λ (t : ℕ). t % prime) total, carry-IsLoose s small)

-- Where the limbs of both are below the bound 2^51 + 2^13, the value of `fe_sub` gives the first
-- number modulo 2^255 - 19 when the second is added back, and its limbs are below the bound again.
pub value-fe_sub :
    (a b : Fe)
    → IsLoose a
    → IsLoose b
    → ((value (fe_sub a b) + value b) % prime ≡ value a % prime) × IsLoose (fe_sub a b)
unfolding fe_sub
value-fe_sub a b la lb =
    let s : Fe = record {
      l0 = biased a.l0 4503599627370458 b.l0;
      l1 = biased a.l1 4503599627370494 b.l1;
      l2 = biased a.l2 4503599627370494 b.l2;
      l3 = biased a.l3 4503599627370494 b.l3;
      l4 = biased a.l4 4503599627370494 b.l4;
    } in
    let small : Below (2 ^ 62) s = omega arith in
    let total : value s + value b ≡ value a + prime * 2 = omega arith in
    (
      add_congr (value (carry s)) (value s) (value b) (value-carry s small)
          ∙ mod_of_multiple (value s + value b) (value a) 2 total,
      carry-IsLoose s small,
    )

fe_zero-IsLoose : IsLoose fe_zero
fe_zero-IsLoose = omega arith

-- Where the limbs are below the bound 2^51 + 2^13, the value of `fe_neg` and that of its argument
-- add up to zero modulo 2^255 - 19, and its limbs are below the bound again.
pub value-fe_neg :
    (a : Fe) → IsLoose a → ((value (fe_neg a) + value a) % prime ≡ 0) × IsLoose (fe_neg a)
unfolding fe_neg
value-fe_neg a la = value-fe_sub fe_zero a fe_zero-IsLoose la
