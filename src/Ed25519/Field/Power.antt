-- ===== src/Ed25519/Field/Power.antt =====
-- `fe_pow` raises to the number its words stand for, and `fe_invert` to 2^255 - 21.
use native.Mathlib.Nat.{pow-suc, pow-zero, mul_comm, div-div-eq-div-mul, div-eq_of_lt}
use nmerkar.Base.{
  ℕ, zero, suc, ◌+◌, ◌-◌, ◌*◌, ◌/◌, ◌%◌, ◌^◌, ◌<◌, ◌≡◌, refl, sym, ap, ◌∙◌, arith, List, [], ◌∷◌,
  Bool, true, false, if◌then◌else◌, subst, length,
}
use nmerkar.Ed25519.Digits.{bit_at, bit_at_lem, digits_value, AreDigits, pow_add}
use nmerkar.Ed25519.Field.{
  Fe, fe_one, fe_mul, fe_sq, pow_round, pow_loop, fe_pow, p_minus_2, fe_invert,
}
use nmerkar.Ed25519.Field.Carry.{prime, value, IsLoose, mul_congr}
use nmerkar.Ed25519.Field.Mul.{value-fe_mul}

-- `r` stands for the power `k` of `z`.
abbrev pub IsPower : Fe → ℕ → Fe → Type 0
IsPower z k r = (value r % prime ≡ value z ^ k % prime) × IsLoose r

mul-IsPower :
    (z r s : Fe) (j k : ℕ) → IsPower z j r → IsPower z k s → IsPower z (j + k) (fe_mul r s)
mul-IsPower z r s j k (er, lr) (es, ls) =
    let (product, loose) = value-fe_mul r s lr ls in
    (
      product
          ∙ mul_congr (value r) (value z ^ j) (value s) er
          ∙ ap (λ (t : ℕ). t % prime) (mul_comm (value z ^ j) (value s))
          ∙ mul_congr (value s) (value z ^ k) (value z ^ j) es
          ∙ ap (λ (t : ℕ). t % prime)
              (mul_comm (value z ^ k) (value z ^ j) ∙ sym (pow_add (value z) j k)),
      loose,
    )

pow_one : (b : ℕ) → b ^ 1 ≡ b
pow_one b = pow-suc b 0 ∙ ap (λ (t : ℕ). t * b) (pow-zero b) ∙ omega arith

round-IsPower :
    (z r : Fe) (k : ℕ) (set : Bool)
    → IsLoose z
    → IsPower z k r
    → IsPower z (k + k + (if set then 1 else 0)) (pow_round z set r)
unfolding pow_round
round-IsPower z r k true lz p =
    mul-IsPower z (fe_sq r) z (k + k) 1 (mul-IsPower z r r k k p p)
      (ap (λ (t : ℕ). t % prime) (sym (pow_one (value z))), lz)
round-IsPower z r k false lz p =
    subst (λ (t : ℕ). IsPower z t (fe_sq r)) (omega arith) (mul-IsPower z r r k k p p)

-- The exponent gains its next bit.
next_bit :
    (e : List ℕ) (i : ℕ)
    → AreDigits 64 e
    → digits_value 64 e / 2 ^ suc i
        + digits_value 64 e / 2 ^ suc i
        + (if bit_at 64 e i then 1 else 0)
      ≡ digits_value 64 e / 2 ^ i
next_bit e i h =
    let whole = digits_value 64 e in
    let half : whole / 2 ^ suc i ≡ whole / 2 ^ i / 2 =
      ap (λ (t : ℕ). whole / t) (pow-suc 2 i) ∙ sym (div-div-eq-div-mul whole (2 ^ i) 2) in
    rw (bit_at_lem 64 e i (omega arith) h, half) (ground arith)

loop-IsPower :
    (z : Fe) (e : List ℕ) (n : ℕ) (r : Fe)
    → IsLoose z
    → AreDigits 64 e
    → IsPower z (digits_value 64 e / 2 ^ n) r
    → IsPower z (digits_value 64 e) (pow_loop z e n r)
unfolding pow_loop
loop-IsPower z e zero r lz h p = subst (λ (t : ℕ). IsPower z t r) (omega arith) p
loop-IsPower z e (suc i) r lz h p = loop-IsPower z e i (pow_round z (bit_at 64 e i) r) lz h (
    subst (λ (t : ℕ). IsPower z t (pow_round z (bit_at 64 e i) r)) (next_bit e i h)
      (round-IsPower z r (digits_value 64 e / 2 ^ suc i) (bit_at 64 e i) lz p))

-- Four words are digits below 2^256.
digits_value-lt : (e : List ℕ) → AreDigits 64 e → length e ≡ 4 → digits_value 64 e < 2 ^ 256
unfolding digits_value
digits_value-lt (e0 ∷ e1 ∷ e2 ∷ e3 ∷ []) h n = omega arith
digits_value-lt [] h n = absurd (omega arith)
digits_value-lt (e0 ∷ []) h n = absurd (omega arith)
digits_value-lt (e0 ∷ e1 ∷ []) h n = absurd (omega arith)
digits_value-lt (e0 ∷ e1 ∷ e2 ∷ []) h n = absurd (omega arith)
digits_value-lt (e0 ∷ e1 ∷ e2 ∷ e3 ∷ e4 ∷ e) h n = absurd (omega arith)

fe_one-IsLoose : IsLoose fe_one
fe_one-IsLoose = omega arith

-- Where the limbs are below the bound 2^51 + 2^13 and the exponent is four 64-bit words, the value
-- of `fe_pow` is the power with that exponent modulo 2^255 - 19, and its limbs are below the bound
-- again.
pub fe_pow_lem :
    (z : Fe) (e : List ℕ)
    → IsLoose z
    → AreDigits 64 e
    → length e ≡ 4
    → (value (fe_pow z e) % prime ≡ value z ^ digits_value 64 e % prime) × IsLoose (fe_pow z e)
unfolding fe_pow
fe_pow_lem z e lz h n = loop-IsPower z e 256 fe_one lz h (
  ap (λ (t : ℕ). t % prime) (sym (pow-zero (value z)))
      ∙ ap (λ (t : ℕ). value z ^ t % prime) (sym (div-eq_of_lt (digits_value-lt e h n))),
  fe_one-IsLoose,
)

p_minus_2-value : digits_value 64 p_minus_2 ≡ prime - 2
unfolding digits_value
p_minus_2-value = refl

-- Where the limbs are below the bound 2^51 + 2^13, the value of `fe_invert` is the power with the
-- exponent 2^255 - 21, two below the prime, modulo 2^255 - 19, and its limbs are below the bound
-- again.
pub fe_invert_lem :
    (z : Fe)
    → IsLoose z
    → (value (fe_invert z) % prime ≡ value z ^ (prime - 2) % prime) × IsLoose (fe_invert z)
unfolding fe_invert
fe_invert_lem z lz =
    let (e, l) = fe_pow_lem z p_minus_2 lz (omega arith) refl in
    (e ∙ ap (λ (t : ℕ). value z ^ t % prime) p_minus_2-value, l)
