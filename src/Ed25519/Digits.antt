-- ===== src/Ed25519/Digits.antt =====
-- The bit tests of comp/src/ed25519.rs, `(e[i / w] >> (i % w)) & 1`, against the number that the
-- words or bytes stand for.
use native.Mathlib.Nat.{
  pow-zero, add-zero, add-suc, zero-div, add-mod_left, mod-eq_of_lt, pow-suc, one-le-pow,
  div-div-eq-div-mul, add-mul-div_left, div-eq_of_lt, mul_assoc,
}
use native.Mathlib.Decide.{dec_lt}
use nmerkar.Base.{
  ℕ, zero, suc, ◌+◌, ◌-◌, ◌*◌, ◌/◌, ◌%◌, ◌^◌, ◌<◌, ◌≡◌, sym, ap, ◌∙◌, arith, List, [], ◌∷◌, Bool,
  get_or, bit_and, bit_and_ones, ◌>>>◌, ◌==◌,
}

-- `(ds[i / w] >> (i % w)) & 1 == 1`
abbrev pub bit_at : ℕ → List ℕ → ℕ → Bool
bit_at w ds i = bit_and (get_or ds (i / w) 0 >>> (i % w)) 1 == 1

-- The number whose digits to the base 2^w are `ds`, lowest first.
unfoldable pub digits_value : ℕ → List ℕ → ℕ
digits_value w [] = 0
digits_value w (d ∷ ds) = d + 2 ^ w * digits_value w ds

abbrev pub AreDigits : ℕ → List ℕ → Type 0
AreDigits w [] = Unit
AreDigits w (d ∷ ds) = (d < 2 ^ w) × AreDigits w ds

pub pow_add : (b m n : ℕ) → b ^ (m + n) ≡ b ^ m * b ^ n
pow_add b m zero =
    ap (λ (t : ℕ). b ^ t) (add-zero m) ∙ sym (ap (λ (t : ℕ). b ^ m * t) (pow-zero b) ∙ omega arith)
pow_add b m (suc n) =
    ap (λ (t : ℕ). b ^ t) (add-suc m n)
    ∙ pow-suc b (m + n)
    ∙ ap (λ (t : ℕ). t * b) (pow_add b m n)
    ∙ mul_assoc (b ^ m) (b ^ n) b
    ∙ ap (λ (t : ℕ). b ^ m * t) (sym (pow-suc b n))

two-pow_pos : (i : ℕ) → 0 < 2 ^ i
two-pow_pos i = one-le-pow i 2 (omega arith)

low_bit : (i j d high : ℕ) → (d + 2 ^ (i + suc j) * high) / 2 ^ i % 2 ≡ d / 2 ^ i % 2
low_bit i j d high =
    let even : ℕ = 2 ^ j * high in
    let split : 2 ^ (i + suc j) * high ≡ 2 ^ i * (2 * even) =
      ap (λ (t : ℕ). t * high) (pow_add 2 i (suc j) ∙ ap (λ (t : ℕ). 2 ^ i * t) (pow-suc 2 j))
      ∙ omega arith in
    ap (λ (t : ℕ). (d + t) / 2 ^ i % 2) split
    ∙ ap (λ (t : ℕ). t % 2) (add-mul-div_left d (2 * even) (two-pow_pos i))
    ∙ omega arith

high_bit : (w i d high : ℕ) → d < 2 ^ w → (d + 2 ^ w * high) / 2 ^ (w + i) ≡ high / 2 ^ i
high_bit w i d high h =
    ap (λ (t : ℕ). (d + 2 ^ w * high) / t) (pow_add 2 w i)
    ∙ sym (div-div-eq-div-mul (d + 2 ^ w * high) (2 ^ w) (2 ^ i))
    ∙ ap (λ (t : ℕ). t / 2 ^ i)
        (add-mul-div_left d high (two-pow_pos w) ∙ omega (arith, div-eq_of_lt h))

-- The quotient and the remainder that index a digit and its bit, one digit further up.
index_up : (w k : ℕ) → 0 < w → ((w + k) / w ≡ suc (k / w)) × ((w + k) % w ≡ k % w)
index_up w k h =
    (ap (λ (t : ℕ). t / w) (omega arith) ∙ add-mul-div_left k 1 h ∙ omega arith, add-mod_left w k)

digit_bit :
    (w : ℕ) (ds : List ℕ) (i : ℕ)
    → 0 < w
    → AreDigits w ds
    → get_or ds (i / w) 0 / 2 ^ (i % w) % 2 ≡ digits_value w ds / 2 ^ i % 2
unfolding digits_value
digit_bit w [] i pos h = omega (arith, zero-div (2 ^ (i % w)), zero-div (2 ^ i))
digit_bit w (d ∷ ds) i pos (small, rest) = elim (dec_lt i w) [
  | yes low ↦
      let j = w - i - 1 in
      let e : w ≡ i + suc j = omega arith in
      let first = div-eq_of_lt low in
      let same = mod-eq_of_lt low in
      rw (first, same)
        (sym (low_bit i j d (digits_value w ds))
          ∙ ap (λ (t : ℕ). (d + 2 ^ t * digits_value w ds) / 2 ^ i % 2) (sym e))
  | no high ↦
      let k = i - w in
      let e : i ≡ w + k = omega arith in
      let (up, stay) = index_up w k pos in
      let ih = digit_bit w ds k pos rest in
      ap (λ (t : ℕ). get_or (d ∷ ds) (t / w) 0 / 2 ^ (t % w) % 2) e
      ∙ rw (up, stay) ih
      ∙ ap (λ (t : ℕ). t % 2) (sym (high_bit w k d (digits_value w ds) small))
      ∙ ap (λ (t : ℕ). (d + 2 ^ w * digits_value w ds) / 2 ^ t % 2) (sym e)
]

-- The bit tests of the source read the bits of the number.
pub bit_at_lem :
    (w : ℕ) (ds : List ℕ) (i : ℕ)
    → 0 < w
    → AreDigits w ds
    → bit_at w ds i ≡ (digits_value w ds / 2 ^ i % 2 == 1)
bit_at_lem w ds i pos h =
    ap (λ (t : ℕ). t == 1)
      (bit_and_ones 1 (get_or ds (i / w) 0 / 2 ^ (i % w)) ∙ digit_bit w ds i pos h)
