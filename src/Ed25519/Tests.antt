-- ===== src/Ed25519/Tests.antt =====
-- Runs of comp/src/ed25519.rs on small inputs, and its theorems at such inputs.
use nmerkar.Base.{
  ◌-◌, ◌*◌, ◌%◌, ◌^◌, ◌≡◌, ◌↔◌, refl, true, ◌∷◌, arith, le_bytes, replicate, text_eq,
}
use nmerkar.Ed25519.Field.{
  Fe, fe_one, mask51, carry, products, narrow, fe_mul, to_bytes, reduce, pack, fe_eq, fe_pow,
  pow_loop, pow_round, fe_invert,
}
use nmerkar.Ed25519.Field.Carry.{prime, value, IsLoose}
use nmerkar.Ed25519.Field.Mul.{value-fe_mul}
use nmerkar.Ed25519.Field.Pack.{fe_eq_iff}
use nmerkar.Ed25519.Field.Power.{fe_invert_lem}

-- The x coordinate of the base point.
abbrev base_x : Fe
base_x = record {
  l0 = 1738742601995546;
  l1 = 1146398526822698;
  l2 = 2070867633025821;
  l3 = 562264141797630;
  l4 = 587772402128613;
}

-- 2^255 - 18, which is 1 in the field.
abbrev late_one : Fe
late_one = record {
  l0 = 2 ^ 51 - 18;
  l1 = 2 ^ 51 - 1;
  l2 = 2 ^ 51 - 1;
  l3 = 2 ^ 51 - 1;
  l4 = 2 ^ 51 - 1;
}

base_x-IsLoose : IsLoose base_x
base_x-IsLoose = omega arith

late_one-IsLoose : IsLoose late_one
late_one-IsLoose = omega arith

late_one_bytes : to_bytes late_one ≡ 1 ∷ replicate 31 0
unfolding to_bytes carry reduce pack mask51 le_bytes
late_one_bytes = refl

inverse_of_x : fe_eq (fe_mul base_x (fe_invert base_x)) fe_one ≡ true
unfolding fe_eq fe_mul products narrow fe_invert fe_pow pow_loop pow_round to_bytes carry reduce
    pack mask51 le_bytes text_eq
inverse_of_x = refl

value-fe_mul_example :
    (value (fe_mul base_x late_one) % prime ≡ value base_x * value late_one % prime)
    × IsLoose (fe_mul base_x late_one)
value-fe_mul_example = value-fe_mul base_x late_one base_x-IsLoose late_one-IsLoose

fe_eq_iff_example : (fe_eq late_one fe_one ≡ true) ↔ (value late_one % prime ≡ value fe_one % prime)
fe_eq_iff_example = fe_eq_iff late_one fe_one late_one-IsLoose (omega arith)

fe_invert_lem_example :
    (value (fe_invert base_x) % prime ≡ value base_x ^ (prime - 2) % prime)
    × IsLoose (fe_invert base_x)
fe_invert_lem_example = fe_invert_lem base_x base_x-IsLoose
