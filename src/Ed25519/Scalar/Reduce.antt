-- ===== src/Ed25519/Scalar/Reduce.antt =====
-- comp/src/ed25519.rs: `reduce_mod_l` and `sc_reduce` compute the remainder by the group order.
use native.Mathlib.Decide.{dec_lt}
use native.Mathlib.Nat.{mod-eq_of_lt, pow-suc, add-mul-mod_self_left, pow-zero}
use nmerkar.Base.{
  ℕ, zero, suc, ◌+◌, ◌-◌, ◌*◌, ◌%◌, ◌^◌, ◌≤◌, ◌<◌, ◌≡◌, refl, sym, ap, ◌∙◌, inl, inr, arith, List,
  [], ◌∷◌, Bool, true, ◌&&◌, length, ltb, ◌==◌, take, drop, le_value, le_bytes, IsBytes, ==_iff,
  and_iff, ltb→lt, Bool-cases, IsBytes-append, le_value-append, le_value-le_bytes, length-le_bytes,
  le_bytes-IsBytes, all, le_value_split, le_value-take_lt, length-drop, length-take, length-append,
  IsBytes-drop,
}
use nmerkar.Ed25519.Digits.{digits_value}
use nmerkar.Ed25519.Scalar.{
  words_geq, words_sub, l_shifted, reduce_round, reduce_loop, reduce_mod_l, load_words, store_words,
  sc_reduce,
}
use nmerkar.Ed25519.Scalar.Words.{
  words_value, AreWords, words_value-lt, words_geq_iff, words_sub_lem, words_value_split,
  AreWords-take,
}

-- The order of the base point.
abbrev pub order : ℕ
order = 2 ^ 252 + 27742317777372353535851937790883648493

abbrev is_word : ℕ → Bool
is_word w = ltb w (2 ^ 64)

-- Every shift that `reduce_mod_l` uses.
abbrev shifts_right : ℕ → Bool
shifts_right zero = true
shifts_right (suc s) =
    (words_value (l_shifted s) == order * 2 ^ s && all is_word (l_shifted s)) && shifts_right s

shift_table : shifts_right 260 ≡ true
unfolding l_shifted digits_value
shift_table = refl

all-AreWords : (ws : List ℕ) → all is_word ws ≡ true → AreWords ws
all-AreWords [] h = tt
all-AreWords (w ∷ ws) h =
    let (first, rest) = (and_iff (is_word w) (all is_word ws)).0 h in
    (ltb→lt w (2 ^ 64) first, all-AreWords ws rest)

shifts_sound :
    (n s : ℕ)
    → shifts_right n ≡ true
    → s < n
    → (words_value (l_shifted s) ≡ order * 2 ^ s) × AreWords (l_shifted s)
shifts_sound zero s h lt = absurd (omega arith)
shifts_sound (suc n) s h lt =
    let (here, below) = (and_iff _ (shifts_right n)).0 h in
    let (value, words) = (and_iff _ (all is_word (l_shifted n))).0 here in
    elim (dec_lt s n) [
      | yes low ↦ shifts_sound n s below low
      | no high ↦
          let e : s ≡ n = omega arith in
          rw e ((==_iff _ (order * 2 ^ n)).0 value, all-AreWords (l_shifted n) words)
    ]

-- `l_shifted` is the order shifted by `s` bits.
pub l_shifted_lem :
    (s : ℕ) → s < 260 → (words_value (l_shifted s) ≡ order * 2 ^ s) × AreWords (l_shifted s)
l_shifted_lem s h = shifts_sound 260 s shift_table h

length-l_shifted : (s : ℕ) → length (l_shifted s) ≡ 8
unfolding l_shifted
length-l_shifted s = refl

-- Eight words.
pub record IsWide (v : List ℕ) : Type 0 where
  pub words : AreWords v
  pub eight : length v ≡ 8

-- Subtracting a multiple of the order keeps the remainder.
mod-sub_multiple : (x k : ℕ) → order * k ≤ x → (x - order * k) % order ≡ x % order
mod-sub_multiple x k h =
    let whole : x ≡ (x - order * k) + order * k = omega arith in
    sym (ap (λ (t : ℕ). t % order) whole ∙ add-mul-mod_self_left (x - order * k) order k)

reduce_round_lem :
    (s : ℕ) (v : List ℕ)
    → s < 260
    → IsWide v
    → words_value v < order * 2 ^ suc s
    → IsWide (reduce_round s v)
      × (words_value (reduce_round s v) < order * 2 ^ s)
      × (words_value (reduce_round s v) % order ≡ words_value v % order)
unfolding reduce_round
reduce_round_lem s v h wide small =
    let (value, words) = l_shifted_lem s h in
    let same : length v ≡ length (l_shifted s) = omega (arith, wide.eight, length-l_shifted s) in
    let (geq, leq) = words_geq_iff v (l_shifted s) wide.words words same in
    elim (Bool-cases (words_geq v (l_shifted s))) [
      | inl high ↦
          let (difference, kept, len) =
            words_sub_lem v (l_shifted s) wide.words words same (geq high) in
          let exact : words_value (words_sub v (l_shifted s)) ≡ words_value v - order * 2 ^ s =
            omega (arith, difference, value) in
          rw high (
            record { words = kept; eight = omega (arith, len, wide.eight) },
            omega (arith, exact, pow-suc 2 s, small),
            ap (λ (t : ℕ). t % order) exact
                ∙ mod-sub_multiple (words_value v) (2 ^ s) (omega (arith, geq high, value)),
          )
      | inr low ↦ elim (dec_lt (words_value v) (order * 2 ^ s)) [
        | yes less ↦ rw low (wide, less, refl)
        | no more ↦
            let high : words_geq v (l_shifted s) ≡ true = leq (omega (arith, value)) in absurd cc
      ]
    ]

reduce_loop_lem :
    (n : ℕ) (v : List ℕ)
    → n ≤ 260
    → IsWide v
    → words_value v < order * 2 ^ n
    → IsWide (reduce_loop n v)
      × (words_value (reduce_loop n v) < order)
      × (words_value (reduce_loop n v) % order ≡ words_value v % order)
unfolding reduce_loop
reduce_loop_lem zero v h wide small = (wide, omega (arith, pow-zero 2, small), refl)
reduce_loop_lem (suc s) v h wide small =
    let (kept, less, same) = reduce_round_lem s v (omega arith) wide small in
    let (kept', less', same') = reduce_loop_lem s (reduce_round s v) (omega arith) kept less in
    (kept', less', same' ∙ same)

-- The shifts subtracted from the highest down leave the remainder by the order.
pub reduce_mod_l_lem :
    (v : List ℕ)
    → IsWide v
    → (words_value (reduce_mod_l v) ≡ words_value v % order) × IsWide (reduce_mod_l v)
unfolding reduce_mod_l
reduce_mod_l_lem v wide =
    let bound : words_value v < 2 ^ 512 = rw wide.eight at (words_value-lt v wide.words) in
    let (kept, less, same) = reduce_loop_lem 260 v (omega arith) wide (omega arith) in
    (sym (mod-eq_of_lt less) ∙ same, kept)

-- The loaded words stand for the number of the bytes.
pub load_words_lem :
    (n : ℕ) (s : List ℕ)
    → IsBytes s
    → length s ≡ 8 * n
    → (words_value (load_words n s) ≡ le_value s)
      × AreWords (load_words n s)
      × (length (load_words n s) ≡ n)
unfolding load_words digits_value le_value
load_words_lem zero [] h len = (refl, tt, refl)
load_words_lem zero (b ∷ s) h len = absurd (omega arith)
load_words_lem (suc n) s h len =
    let (value, words, count) =
      load_words_lem n (drop 8 s) (IsBytes-drop 8 s h) (omega (arith, length-drop 8 s)) in
    (omega (arith, value, le_value_split 8 s), (le_value-take_lt 8 s h, words), ap suc count)

-- The stored bytes of words stand for the same number.
store_words_lem :
    (ws : List ℕ)
    → AreWords ws
    → (le_value (store_words ws) ≡ words_value ws)
      × IsBytes (store_words ws)
      × (length (store_words ws) ≡ 8 * length ws)
unfolding store_words digits_value le_value
store_words_lem [] h = (refl, tt, refl)
store_words_lem (w ∷ ws) (small, h) =
    let (value, bytes, count) = store_words_lem ws h in
    (
      le_value-append (le_bytes 8 w) (store_words ws)
          ∙ rw (length-le_bytes 8 w) (omega (arith, le_value-le_bytes 8 w small, value)),
      IsBytes-append (le_bytes 8 w) (store_words ws) (le_bytes-IsBytes 8 w) bytes,
      length-append (le_bytes 8 w) (store_words ws) ∙ omega (arith, length-le_bytes 8 w, count),
    )

-- The low four of eight words of a number below the order.
low_words :
    (v : List ℕ)
    → IsWide v
    → words_value v < order
    → (words_value (take 4 v) ≡ words_value v) × AreWords (take 4 v) × (length (take 4 v) ≡ 4)
low_words v wide small =
    let split = words_value_split 4 v in
    (
      omega (arith, split, small),
      AreWords-take 4 v wide.words,
      length-take 4 v ∙ omega (arith, wide.eight),
    )

-- The four words that both callers of `reduce_mod_l` store: the remainder, as 32 bytes.
pub stored_remainder :
    (v : List ℕ)
    → IsWide v
    → (le_value (store_words (take 4 (reduce_mod_l v))) ≡ words_value v % order)
      × IsBytes (store_words (take 4 (reduce_mod_l v)))
      × (length (store_words (take 4 (reduce_mod_l v))) ≡ 32)
stored_remainder v wide =
    let (value, kept) = reduce_mod_l_lem v wide in
    let (low, words, four) = low_words (reduce_mod_l v) kept (omega (arith, value)) in
    let (bytes, are, count) = store_words_lem (take 4 (reduce_mod_l v)) words in
    (bytes ∙ low ∙ value, are, omega (arith, count, four))

-- `sc_reduce` turns 64 bytes into the 32 bytes of the remainder of their number by the group
-- order, lowest byte first.
pub sc_reduce_lem :
    (h : List ℕ)
    → IsBytes h
    → length h ≡ 64
    → (le_value (sc_reduce h) ≡ le_value h % order)
      × IsBytes (sc_reduce h)
      × (length (sc_reduce h) ≡ 32)
unfolding sc_reduce
sc_reduce_lem h bytes len =
    let (value, words, eight) = load_words_lem 8 h bytes (omega arith) in
    let wide : IsWide (load_words 8 h) = record { words = words; eight = eight } in
    let (stored, are, count) = stored_remainder (load_words 8 h) wide in
    (stored ∙ ap (λ (t : ℕ). t % order) value, are, count)
