-- ===== src/Ed25519/Scalar/Words.antt =====
-- The word loops of the scalar arithmetic of comp/src/ed25519.rs against the numbers that the
-- words stand for.
use native.Mathlib.Nat.{pow-suc}
use nmerkar.Base.{
  ℕ, zero, suc, ◌+◌, ◌-◌, ◌*◌, ◌^◌, ◌≤◌, ◌<◌, ◌≡◌, ◌↔◌, refl, ap, arith, List, [], ◌∷◌, Bool, true,
  false, Option, none, some, length, u64, ltb, ◌==◌, take,
}
use nmerkar.Base.{if◌then◌else◌, drop}
use nmerkar.Ed25519.Digits.{digits_value, AreDigits}
use nmerkar.Ed25519.Scalar.{first_difference, or_equal, words_geq, sub_loop, words_sub, borrow_of}

-- The number that 64-bit words stand for, lowest first.
abbrev pub words_value : List ℕ → ℕ
words_value = digits_value 64

abbrev pub AreWords : List ℕ → Type 0
AreWords = AreDigits 64

pub words_value-lt : (ws : List ℕ) → AreWords ws → words_value ws < (2 ^ 64) ^ length ws
unfolding digits_value
words_value-lt [] h = omega arith
words_value-lt (w ∷ ws) (b, h) = omega (arith, words_value-lt ws h, pow-suc (2 ^ 64) (length ws))

-- The comparison of two numbers, as the answer of the loop.
abbrev Compared : Option Bool → ℕ → ℕ → Type 0
Compared none x y = x ≡ y
Compared (some true) x y = y < x
Compared (some false) x y = x < y

Compared-cons :
    (r : Option Bool) (a b x y : ℕ)
    → a < 2 ^ 64
    → b < 2 ^ 64
    → Compared r x y
    → Compared
        (elim r [ some s ↦ some s | none ↦ if◌then◌else◌ (a == b) none (some (ltb b a)) ])
        (a + 2 ^ 64 * x)
        (b + 2 ^ 64 * y)
Compared-cons (some true) a b x y h k c = omega arith
Compared-cons (some false) a b x y h k c = omega arith
Compared-cons none a b x y h k c = ground arith

first_difference_lem :
    (as' bs : List ℕ)
    → AreWords as'
    → AreWords bs
    → length as' ≡ length bs
    → Compared (first_difference as' bs) (words_value as') (words_value bs)
unfolding first_difference digits_value
first_difference_lem [] [] h k n = refl
first_difference_lem [] (b ∷ bs) h k n = absurd (omega arith)
first_difference_lem (a ∷ as') [] h k n = absurd (omega arith)
first_difference_lem (a ∷ as') (b ∷ bs) h k n =
    Compared-cons (first_difference as' bs) a b (words_value as') (words_value bs) h.0 k.0
      (first_difference_lem as' bs h.1 k.1 (omega arith))

-- `words_geq` compares the numbers.
pub words_geq_iff :
    (as' bs : List ℕ)
    → AreWords as'
    → AreWords bs
    → length as' ≡ length bs
    → (words_geq as' bs ≡ true) ↔ (words_value bs ≤ words_value as')
unfolding words_geq
words_geq_iff as' bs h k n =
    answer (first_difference as' bs) (words_value as') (words_value bs)
      (first_difference_lem as' bs h k n)
  where
    answer : (r : Option Bool) (x y : ℕ) → Compared r x y → (or_equal r ≡ true) ↔ (y ≤ x)
    answer none x y c = ground arith
    answer (some true) x y c = ground arith
    answer (some false) x y c = ground arith

-- One word of the subtraction.
sub_word :
    (a b borrow : ℕ)
    → a < 2 ^ 64
    → b < 2 ^ 64
    → borrow ≤ 1
    → (u64 (u64 (a + 2 ^ 64 - b) + 2 ^ 64 - borrow) + b + borrow
        ≡ a + 2 ^ 64 * borrow_of (ltb a b) (ltb (u64 (a + 2 ^ 64 - b)) borrow))
      × (borrow_of (ltb a b) (ltb (u64 (a + 2 ^ 64 - b)) borrow) ≤ 1)
sub_word a b borrow h k small = ground arith

-- The loop of `words_sub` subtracts, where the difference is not negative.
sub_loop_lem :
    (as' bs : List ℕ) (borrow : ℕ)
    → AreWords as'
    → AreWords bs
    → length as' ≡ length bs
    → borrow ≤ 1
    → words_value bs + borrow ≤ words_value as'
    → (words_value (sub_loop as' bs borrow) ≡ words_value as' - words_value bs - borrow)
      × AreWords (sub_loop as' bs borrow)
      × (length (sub_loop as' bs borrow) ≡ length as')
unfolding sub_loop digits_value
sub_loop_lem [] [] borrow h k n small le = ground arith
sub_loop_lem [] (b ∷ bs) borrow h k n small le = absurd (omega arith)
sub_loop_lem (a ∷ as') [] borrow h k n small le = absurd (omega arith)
sub_loop_lem (a ∷ as') (b ∷ bs) borrow h k n small le =
    let (word, next) = sub_word a b borrow h.0 k.0 small in
    let (ih, words, len) = sub_loop_lem as' bs _ h.1 k.1 (omega arith) next (omega (arith, word)) in
    (omega (arith, word, ih), (omega arith, words), ap suc len)

-- `words_sub` subtracts, where the difference is not negative.
pub words_sub_lem :
    (as' bs : List ℕ)
    → AreWords as'
    → AreWords bs
    → length as' ≡ length bs
    → words_value bs ≤ words_value as'
    → (words_value (words_sub as' bs) ≡ words_value as' - words_value bs)
      × AreWords (words_sub as' bs)
      × (length (words_sub as' bs) ≡ length as')
unfolding words_sub
words_sub_lem as' bs h k n le =
    let (value, words, len) = sub_loop_lem as' bs 0 h k n (omega arith) (omega arith) in
    (omega (arith, value), words, len)

-- The low `n` words and the others.
pub words_value_split :
    (n : ℕ) (ws : List ℕ)
    → words_value ws ≡ words_value (take n ws) + (2 ^ 64) ^ n * words_value (drop n ws)
unfolding digits_value
words_value_split zero ws = omega arith
words_value_split (suc n) [] = omega arith
words_value_split (suc n) (w ∷ ws) = omega (
  arith,
  words_value_split n ws,
  ap (λ (t : ℕ). t * words_value (drop n ws)) (pow-suc (2 ^ 64) n),
)

pub AreWords-take : (n : ℕ) (ws : List ℕ) → AreWords ws → AreWords (take n ws)
AreWords-take zero ws h = tt
AreWords-take (suc n) [] h = tt
AreWords-take (suc n) (w ∷ ws) (b, h) = (b, AreWords-take n ws h)
