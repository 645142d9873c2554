-- ===== src/Ed25519/Group/Extended.antt =====
-- comp/src/ed25519.rs: the group operations keep the limb bounds and X * Y = Z * T.
use native.Mathlib.Nat.{mul_comm}
use nmerkar.Base.{ℕ, zero, suc, ◌*◌, ◌%◌, ◌≡◌, refl, sym, ap, ◌∙◌, arith, List, Bool, true, false}
use nmerkar.Ed25519.Digits.{bit_at}
use nmerkar.Ed25519.Field.{Fe, fe_mul, fe_add, fe_sub}
use nmerkar.Ed25519.Field.Carry.{prime, value, IsLoose, mul_congr}
use nmerkar.Ed25519.Field.Mul.{value-fe_mul}
use nmerkar.Ed25519.Field.Add.{value-fe_add, value-fe_sub, value-fe_neg}
use nmerkar.Ed25519.Group.{
  Ge, completed, ge_add, ge_double, neutral, scalar_round, scalar_loop, ge_scalar_mul, curve_2d,
}

-- Limbs within the bound, and X * Y = Z * T modulo the prime: the coordinates fit together.
pub record IsExtended (p : Ge) : Type 0 where
  pub x_loose : IsLoose p.x
  pub y_loose : IsLoose p.y
  pub z_loose : IsLoose p.z
  pub t_loose : IsLoose p.t
  pub fits : value p.x * value p.y % prime ≡ value p.z * value p.t % prime

product_residue :
    (a b c d : Fe)
    → IsLoose a
    → IsLoose b
    → IsLoose c
    → IsLoose d
    → value (fe_mul a b) * value (fe_mul c d) % prime
      ≡ (value a * value b) * (value c * value d) % prime
product_residue a b c d ha hb hc hd =
    let (first, _) = value-fe_mul a b ha hb in
    let (second, _) = value-fe_mul c d hc hd in
    let m : ℕ = value (fe_mul c d) in
    let n : ℕ = value a * value b in
    mul_congr (value (fe_mul a b)) n m first
    ∙ ap (λ (k : ℕ). k % prime) (mul_comm n m)
    ∙ mul_congr m (value c * value d) n second
    ∙ ap (λ (k : ℕ). k % prime) (mul_comm (value c * value d) n)

shuffle : (a b c d : ℕ) → a * b * (c * d) ≡ b * c * (a * d)
shuffle a b c d = omega arith

-- Every result of the two formulas is made of four products that fit together.
completed-IsExtended :
    (e f g h : Fe) → IsLoose e → IsLoose f → IsLoose g → IsLoose h → IsExtended (completed e f g h)
completed-IsExtended e f g h he hf hg hh = record {
  x_loose = (value-fe_mul e f he hf).1;
  y_loose = (value-fe_mul g h hg hh).1;
  z_loose = (value-fe_mul f g hf hg).1;
  t_loose = (value-fe_mul e h he hh).1;
  fits =
      product_residue e f g h he hf hg hh
      ∙ ap (λ (n : ℕ). n % prime) (shuffle (value e) (value f) (value g) (value h))
      ∙ sym (product_residue f g e h hf hg he hh);
}

-- The limb bounds of the operations, without their values.
fe_mul-IsLoose : (a b : Fe) → IsLoose a → IsLoose b → IsLoose (fe_mul a b)
fe_mul-IsLoose a b h k = (value-fe_mul a b h k).1

fe_add-IsLoose : (a b : Fe) → IsLoose a → IsLoose b → IsLoose (fe_add a b)
fe_add-IsLoose a b h k = (value-fe_add a b h k).1

fe_sub-IsLoose : (a b : Fe) → IsLoose a → IsLoose b → IsLoose (fe_sub a b)
fe_sub-IsLoose a b h k = (value-fe_sub a b h k).1

-- Addition gives coordinates that fit together, whatever points it is given.
pub ge_add-IsExtended : (p q : Ge) → IsExtended p → IsExtended q → IsExtended (ge_add p q)
unfolding ge_add
ge_add-IsExtended p q hp hq =
    let a =
      fe_mul-IsLoose (fe_sub p.y p.x) (fe_sub q.y q.x)
        (fe_sub-IsLoose p.y p.x hp.y_loose hp.x_loose)
        (fe_sub-IsLoose q.y q.x hq.y_loose hq.x_loose) in
    let b =
      fe_mul-IsLoose (fe_add p.y p.x) (fe_add q.y q.x)
        (fe_add-IsLoose p.y p.x hp.y_loose hp.x_loose)
        (fe_add-IsLoose q.y q.x hq.y_loose hq.x_loose) in
    let c =
      fe_mul-IsLoose (fe_mul p.t curve_2d) q.t
        (fe_mul-IsLoose p.t curve_2d hp.t_loose (omega arith)) hq.t_loose in
    let zz = fe_mul-IsLoose p.z q.z hp.z_loose hq.z_loose in
    let d = fe_add-IsLoose _ _ zz zz in
    completed-IsExtended _ _ _ _ (fe_sub-IsLoose _ _ b a) (fe_sub-IsLoose _ _ d c)
      (fe_add-IsLoose _ _ d c) (fe_add-IsLoose _ _ b a)

pub ge_double-IsExtended : (p : Ge) → IsExtended p → IsExtended (ge_double p)
unfolding ge_double
ge_double-IsExtended p hp =
    let a = fe_mul-IsLoose p.x p.x hp.x_loose hp.x_loose in
    let b = fe_mul-IsLoose p.y p.y hp.y_loose hp.y_loose in
    let zz = fe_mul-IsLoose p.z p.z hp.z_loose hp.z_loose in
    let c = fe_add-IsLoose _ _ zz zz in
    let d = (value-fe_neg _ a).1 in
    let xy = fe_add-IsLoose p.x p.y hp.x_loose hp.y_loose in
    let e = fe_sub-IsLoose _ _ (fe_sub-IsLoose _ _ (fe_mul-IsLoose _ _ xy xy) a) b in
    let g = fe_add-IsLoose _ _ d b in
    completed-IsExtended _ _ _ _ e (fe_sub-IsLoose _ _ g c) g (fe_sub-IsLoose _ _ d b)

neutral-IsExtended : IsExtended neutral
neutral-IsExtended = record {
  x_loose = omega arith;
  y_loose = omega arith;
  z_loose = omega arith;
  t_loose = omega arith;
  fits = refl;
}

scalar_loop-IsExtended :
    (p : Ge) (s : List ℕ) (n : ℕ) (r : Ge)
    → IsExtended p
    → IsExtended r
    → IsExtended (scalar_loop p s n r)
unfolding scalar_loop
scalar_loop-IsExtended p s zero r hp hr = hr
scalar_loop-IsExtended p s (suc i) r hp hr =
    scalar_loop-IsExtended p s i (scalar_round p (bit_at 8 s i) r) hp (step (bit_at 8 s i))
  where
    step : (set : Bool) → IsExtended (scalar_round p set r)
    step true =
        unfold scalar_round in ge_add-IsExtended (ge_double r) p (ge_double-IsExtended r hr) hp
    step false = unfold scalar_round in ge_double-IsExtended r hr

-- Where a point has limbs below the bound 2^51 + 2^13 and X * Y = Z * T modulo the prime, so has
-- its multiple by the bits of any list of bytes.
pub ge_scalar_mul-IsExtended : (p : Ge) (s : List ℕ) → IsExtended p → IsExtended (ge_scalar_mul p s)
unfolding ge_scalar_mul
ge_scalar_mul-IsExtended p s hp = scalar_loop-IsExtended p s 256 neutral hp neutral-IsExtended
