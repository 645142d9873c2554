-- ===== src/Ed25519/Scalar/Product.antt =====
-- comp/src/ed25519.rs: `sc_muladd` computes `a * b + c` modulo the group order.
use native.Mathlib.Nat.{pow-suc, mul-le-mul}
use nmerkar.Base.{
  ℕ, zero, suc, ◌+◌, ◌-◌, ◌*◌, ◌%◌, ◌^◌, ◌≤◌, ◌<◌, ◌≡◌, refl, ap, ap₂, ◌∙◌, arith, List, [], ◌∷◌,
  length, u128, le_value, IsBytes, replicate, ◌>>>◌, le_value-lt,
}
use nmerkar.Ed25519.Digits.{digits_value}
use nmerkar.Ed25519.Scalar.{mul_row, mul_rows, add_loop, load_words, sc_muladd}
use nmerkar.Ed25519.Scalar.Words.{words_value, AreWords}
use nmerkar.Ed25519.Scalar.Reduce.{order, load_words_lem, stored_remainder}

-- From the index `n` on, every word is zero.
abbrev ZeroFrom : ℕ → List ℕ → Type 0
ZeroFrom n [] = Unit
ZeroFrom zero (r ∷ rs) = (r ≡ 0) × ZeroFrom zero rs
ZeroFrom (suc n) (r ∷ rs) = ZeroFrom n rs

-- A product of two words with two more words fits in 128 bits.
product_fits :
    (a b r carry : ℕ)
    → a < 2 ^ 64
    → b < 2 ^ 64
    → r < 2 ^ 64
    → carry < 2 ^ 64
    → a * b + r + carry < 2 ^ 128
product_fits a b r carry ha hb hr hc =
    let top : a * b ≤ (2 ^ 64 - 1) * (2 ^ 64 - 1) =
      mul-le-mul {n₂ = 2 ^ 64 - 1} {m₂ = 2 ^ 64 - 1} (omega arith) (omega arith) in
    omega (arith, top)

mul_row_lem :
    (a : ℕ) (bs rs : List ℕ) (carry : ℕ)
    → a < 2 ^ 64
    → carry < 2 ^ 64
    → AreWords bs
    → AreWords rs
    → ZeroFrom (length bs) rs
    → length bs < length rs
    → (words_value (mul_row a bs rs carry) ≡ words_value rs + a * words_value bs + carry)
      × AreWords (mul_row a bs rs carry)
      × (length (mul_row a bs rs carry) ≡ length rs)
      × ZeroFrom (suc (length bs)) (mul_row a bs rs carry)
unfolding mul_row digits_value
mul_row_lem a bs [] carry ha hc hb hr z len = absurd (omega arith)
mul_row_lem a [] (r ∷ rs) carry ha hc hb hr (e, z) len =
    (omega (arith, e), (omega (arith, e), hr.1), refl, z)
mul_row_lem a (b ∷ bs) (r ∷ rs) carry ha hc hb hr z len =
    let fits = product_fits a b r carry ha hb.0 hr.0 hc in
    let t : ℕ = u128 (a * b + r + carry) in
    let (value, words, count, zeros) =
      mul_row_lem a bs rs (t >>> 64) ha (omega arith) hb.1 hr.1 z (omega arith) in
    (omega (arith, fits, value), (omega arith, words), ap suc count, zeros)

mul_rows_lem :
    (as' bs rs : List ℕ)
    → AreWords as'
    → AreWords bs
    → AreWords rs
    → ZeroFrom (length bs) rs
    → length rs ≡ length as' + length bs
    → (words_value (mul_rows as' bs rs) ≡ words_value rs + words_value as' * words_value bs)
      × AreWords (mul_rows as' bs rs)
      × (length (mul_rows as' bs rs) ≡ length rs)
unfolding mul_rows digits_value
mul_rows_lem [] bs rs ha hb hr z len = (omega arith, hr, refl)
mul_rows_lem (a ∷ as') bs rs ha hb hr z len =
    let (value, words, count, zeros) =
      mul_row_lem a bs rs 0 ha.0 (omega arith) hb hr z (omega (arith, len)) in
    elim (mul_row a bs rs 0)
        as (λ row.
          (words_value row ≡ words_value rs + a * words_value bs + 0)
          → AreWords row
          → (length row ≡ length rs)
          → ZeroFrom (suc (length bs)) row
          → (words_value (elim row [ [] ↦ [] | x ∷ xs ↦ x ∷ mul_rows as' bs xs ])
              ≡ words_value rs + words_value (a ∷ as') * words_value bs)
            × AreWords (elim row [ [] ↦ [] | x ∷ xs ↦ x ∷ mul_rows as' bs xs ])
            × (length (elim row [ [] ↦ [] | x ∷ xs ↦ x ∷ mul_rows as' bs xs ]) ≡ length rs)) [
              | [] ↦ λ v w c o. absurd (omega (arith, c, len))
              | x ∷ xs ↦ λ v w c o.
                  let (ih, kept, same) =
                    mul_rows_lem as' bs xs ha.1 hb w.1 o (omega (arith, c, len)) in
                  (omega (arith, v, ih), (w.0, kept), ap suc same ∙ c)
            ]
      value words count zeros

add_loop_lem :
    (rs cs : List ℕ) (carry : ℕ)
    → AreWords rs
    → AreWords cs
    → carry ≤ 1
    → words_value rs + words_value cs + carry < (2 ^ 64) ^ length rs
    → length cs ≤ length rs
    → (words_value (add_loop rs cs carry) ≡ words_value rs + words_value cs + carry)
      × AreWords (add_loop rs cs carry)
      × (length (add_loop rs cs carry) ≡ length rs)
unfolding add_loop digits_value
add_loop_lem [] [] carry hr hc small fits len = (omega arith, tt, refl)
add_loop_lem [] (c ∷ cs) carry hr hc small fits len = absurd (omega arith)
add_loop_lem (r ∷ rs) [] carry hr hc small fits len =
    let t : ℕ = u128 (r + 0 + carry) in
    let (value, words, count) =
      add_loop_lem rs [] (t >>> 64) hr.1 tt (omega arith)
        (omega (arith, fits, pow-suc (2 ^ 64) (length rs))) (omega arith) in
    (omega (arith, value), (omega arith, words), ap suc count)
add_loop_lem (r ∷ rs) (c ∷ cs) carry hr hc small fits len =
    let t : ℕ = u128 (r + c + carry) in
    let (value, words, count) =
      add_loop_lem rs cs (t >>> 64) hr.1 hc.1 (omega arith)
        (omega (arith, fits, pow-suc (2 ^ 64) (length rs))) (omega arith) in
    (omega (arith, value), (omega arith, words), ap suc count)

-- On three numbers of 32 bytes each, `sc_muladd` gives the 32 bytes of the remainder of
-- `a * b + c` by the group order, lowest byte first.
pub sc_muladd_lem :
    (a b c : List ℕ)
    → IsBytes a
    → IsBytes b
    → IsBytes c
    → length a ≡ 32
    → length b ≡ 32
    → length c ≡ 32
    → (le_value (sc_muladd a b c) ≡ (le_value a * le_value b + le_value c) % order)
      × IsBytes (sc_muladd a b c)
      × (length (sc_muladd a b c) ≡ 32)
unfolding sc_muladd digits_value
sc_muladd_lem a b c ha hb hc la lb lc =
    let (va, wa, na) = load_words_lem 4 a ha (omega arith) in
    let (vb, wb, nb) = load_words_lem 4 b hb (omega arith) in
    let (vc, wc, nc) = load_words_lem 4 c hc (omega arith) in
    let ba : le_value a < 256 ^ 32 = rw la at (le_value-lt a ha) in
    let bb : le_value b < 256 ^ 32 = rw lb at (le_value-lt b hb) in
    let bc : le_value c < 256 ^ 32 = rw lc at (le_value-lt c hc) in
    let top : le_value a * le_value b ≤ (256 ^ 32 - 1) * (256 ^ 32 - 1) =
      mul-le-mul {n₂ = 256 ^ 32 - 1} {m₂ = 256 ^ 32 - 1} (omega arith) (omega arith) in
    let zeros : ZeroFrom (length (load_words 4 b)) (replicate 8 0) =
      rw nb (refl, (refl, (refl, (refl, tt)))) in
    let (product, wp, np) =
      mul_rows_lem (load_words 4 a) (load_words 4 b) (replicate 8 0) wa wb zero_words zeros
        (omega (arith, na, nb)) in
    let scaled : words_value (load_words 4 a) * words_value (load_words 4 b)
        ≡ le_value a * le_value b =
      ap₂ (λ (x y : ℕ). x * y) va vb in
    let exact : words_value (mul_rows (load_words 4 a) (load_words 4 b) (replicate 8 0))
        ≡ le_value a * le_value b =
      omega (arith, product, scaled) in
    let eight : length (mul_rows (load_words 4 a) (load_words 4 b) (replicate 8 0)) ≡ 8 = np in
    let fits : words_value (mul_rows (load_words 4 a) (load_words 4 b) (replicate 8 0))
          + words_value (load_words 4 c)
          + 0
        < 2 ^ 512 =
      omega (arith, exact, vc, top, bc) in
    let (sum, ws, ns) =
      add_loop_lem (mul_rows (load_words 4 a) (load_words 4 b) (replicate 8 0)) (load_words 4 c) 0
        wp wc (omega arith) (rw eight fits) (omega (arith, eight, nc)) in
    let (stored, bytes, count) = stored_remainder _ (record { words = ws; eight = ns ∙ eight }) in
    (stored ∙ ap (λ (t : ℕ). t % order) (omega (arith, sum, exact, vc)), bytes, count)
  where
    zero_words : AreWords (replicate 8 0)
    zero_words = omega arith
