-- ===== src/Ed25519/Group.antt =====
-- comp/src/ed25519.rs: the group in extended twisted Edwards coordinates,
-- x = X/Z, y = Y/Z and xy = T/Z.
pub mod Extended
use nmerkar.Base.{
  ℕ, zero, suc, ◌+◌, ◌*◌, ◌/◌, ◌%◌, ◌^◌, bit_and, bit_or, Bool, true, false, not, ◌&&◌, List, [],
  ◌∷◌, ◌++◌, Option, none, some, if◌then◌else◌, ◌==◌, take, get_or, text_eq, u64, ◌>>>◌, ◌<<<◌,
}
use nmerkar.Ed25519.Digits.{bit_at}
use nmerkar.Ed25519.Field.{
  Fe, fe_zero, fe_one, fe_mul, fe_sq, fe_add, fe_sub, fe_neg, fe_eq, fe_pow, fe_invert, to_bytes,
  from_bytes, sqrt_exp,
}

-- `D`, `D2`, `SQRTM1`
abbrev pub curve_d : Fe
curve_d = record {
  l0 = 929955233495203;
  l1 = 466365720129213;
  l2 = 1662059464998953;
  l3 = 2033849074728123;
  l4 = 1442794654840575;
}

abbrev pub curve_2d : Fe
curve_2d = record {
  l0 = 1859910466990425;
  l1 = 932731440258426;
  l2 = 1072319116312658;
  l3 = 1815898335770999;
  l4 = 633789495995903;
}

abbrev pub sqrt_minus_1 : Fe
sqrt_minus_1 = record {
  l0 = 1718705420411056;
  l1 = 234908883556509;
  l2 = 2233514472574048;
  l3 = 2117202627021982;
  l4 = 765476049583133;
}

-- `Ge`
pub record Ge : Type 0 where
  pub x : Fe
  pub y : Fe
  pub z : Fe
  pub t : Fe

-- `BASE`
abbrev pub base_point : Ge
base_point = record {
  x = record {
    l0 = 1738742601995546;
    l1 = 1146398526822698;
    l2 = 2070867633025821;
    l3 = 562264141797630;
    l4 = 587772402128613;
  };
  y = record {
    l0 = 1801439850948184;
    l1 = 1351079888211148;
    l2 = 450359962737049;
    l3 = 900719925474099;
    l4 = 1801439850948198;
  };
  z = fe_one;
  t = record {
    l0 = 1841354044333475;
    l1 = 16398895984059;
    l2 = 755974180946558;
    l3 = 900171276175154;
    l4 = 1821297809914039;
  };
}

-- The record that `ge_add` and `ge_double` end in.
abbrev pub completed : Fe → Fe → Fe → Fe → Ge
completed e f g h = record { x = fe_mul e f; y = fe_mul g h; z = fe_mul f g; t = fe_mul e h }

unfoldable pub ge_add : Ge → Ge → Ge
ge_add p q =
    let a = fe_mul (fe_sub p.y p.x) (fe_sub q.y q.x) in
    let b = fe_mul (fe_add p.y p.x) (fe_add q.y q.x) in
    let c = fe_mul (fe_mul p.t curve_2d) q.t in
    let d = fe_add (fe_mul p.z q.z) (fe_mul p.z q.z) in
    completed (fe_sub b a) (fe_sub d c) (fe_add d c) (fe_add b a)

unfoldable pub ge_double : Ge → Ge
ge_double p =
    let a = fe_sq p.x in
    let b = fe_sq p.y in
    let c = fe_add (fe_sq p.z) (fe_sq p.z) in
    let d = fe_neg a in
    let e = fe_sub (fe_sub (fe_sq (fe_add p.x p.y)) a) b in
    let g = fe_add d b in completed e (fe_sub g c) g (fe_sub d b)

abbrev pub neutral : Ge
neutral = record { x = fe_zero; y = fe_one; z = fe_one; t = fe_zero }

-- One round of `ge_scalar_mul`: double, and add where the bit is set.
unfoldable pub scalar_round : Ge → Bool → Ge → Ge
scalar_round p set r = if set then ge_add (ge_double r) p else ge_double r

-- The loop of `ge_scalar_mul` over the bits `n - 1, …, 0`.
unfoldable pub scalar_loop : Ge → List ℕ → ℕ → Ge → Ge
scalar_loop p s zero r = r
scalar_loop p s (suc i) r = scalar_loop p s i (scalar_round p (bit_at 8 s i) r)

unfoldable pub ge_scalar_mul : Ge → List ℕ → Ge
ge_scalar_mul p s = scalar_loop p s 256 neutral

unfoldable pub ge_eq : Ge → Ge → Bool
ge_eq p q =
    text_eq (to_bytes (fe_mul p.x q.z)) (to_bytes (fe_mul q.x p.z))
    && text_eq (to_bytes (fe_mul p.y q.z)) (to_bytes (fe_mul q.y p.z))

-- The list with the byte at an index changed, as `out[i] op= …` does.
abbrev pub modify : ℕ → (ℕ → ℕ) → List ℕ → List ℕ
modify i f [] = []
modify zero f (b ∷ bs) = f b ∷ bs
modify (suc i) f (b ∷ bs) = b ∷ modify i f bs

unfoldable pub ge_to_bytes : Ge → List ℕ
ge_to_bytes p =
    let zinv = fe_invert p.z in
    let x = to_bytes (fe_mul p.x zinv) in
    modify 31 (λ b. bit_or b (bit_and (get_or x 0 0) 1 * 2 ^ 7 % 2 ^ 8))
      (to_bytes (fe_mul p.y zinv))

-- The candidate square root of `z`, where there is one.
unfoldable pub root_of : Fe → Option Fe
root_of z =
    let r = fe_pow z sqrt_exp in
    let r2 = fe_mul r r in
    if fe_eq r2 z
    then some r
    else if fe_eq (fe_add r2 z) fe_zero
    then some (fe_mul r sqrt_minus_1)
    else none

-- The end of `ge_decompress`: no negative zero, and the root with the parity of the sign bit.
unfoldable pub with_sign : ℕ → Fe → Fe → Option Ge
with_sign sign y x =
    if fe_eq x fe_zero && sign == 1
    then none
    else let x' = (if bit_and (get_or (to_bytes x) 0 0) 1 == sign then x else fe_neg x) in
      some (record { x = x'; y = y; z = fe_one; t = fe_mul x' y })

-- `z` of `ge_decompress`, the square of x for this y.
unfoldable pub square_of_x : Fe → Fe
square_of_x y =
    let y2 = fe_mul y y in fe_mul (fe_sub y2 fe_one) (fe_invert (fe_add (fe_mul curve_d y2) fe_one))

unfoldable pub ge_decompress : List ℕ → Option Ge
ge_decompress bytes =
    let sign = bit_and (get_or bytes 31 0 >>> 7) 1 in
    let yb = modify 31 (λ b. bit_and b 127) bytes in
    let y = from_bytes yb in
    if text_eq (to_bytes y) yb
    then elim (root_of (square_of_x y)) [ none ↦ none | some x ↦ with_sign sign y x ]
    else none
