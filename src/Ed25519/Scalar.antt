-- ===== src/Ed25519/Scalar.antt =====
-- comp/src/ed25519.rs: scalars modulo the group order `L`, as eight 64-bit words, lowest first.
-- The loops that walk up the words are recursions on the lists of words.
pub mod Words
pub mod Reduce
pub mod Product
use nmerkar.Base.{
  ℕ, zero, suc, ◌+◌, ◌-◌, ◌*◌, ◌/◌, ◌%◌, ◌^◌, bit_or, u64, u128, ◌>>>◌, ◌<<<◌, Bool, true, false,
  List, [], ◌∷◌, ◌++◌, Option, none, some, if◌then◌else◌, ltb, leb, ◌==◌, take, drop, get_or, map,
  le_value, le_bytes, replicate,
}

-- `L`
abbrev pub order_words : List ℕ
order_words = 0x5812631a5cf5d3ed ∷ 0x14def9dea2f79cd6 ∷ 0 ∷ 0x1000000000000000 ∷ 0 ∷ 0 ∷ 0 ∷ 0 ∷ []

-- The loop of `words_geq` from the highest word down; `some` is its early return.
unfoldable pub first_difference : List ℕ → List ℕ → Option Bool
first_difference (a ∷ as') (b ∷ bs) = elim (first_difference as' bs) [
  | some r ↦ some r
  | none ↦ if a == b then none else some (ltb b a)
]
first_difference _ _ = none

abbrev pub or_equal : Option Bool → Bool
or_equal none = true
or_equal (some r) = r

unfoldable pub words_geq : List ℕ → List ℕ → Bool
words_geq a b = or_equal (first_difference a b)

-- `overflowing_sub`: the difference, and whether it wrapped.
abbrev pub overflowing_sub : ℕ → ℕ → ℕ × Bool
overflowing_sub x y = (u64 (x + 2 ^ 64 - y), ltb x y)

-- `(b1 as u64) | (b2 as u64)`
abbrev pub borrow_of : Bool → Bool → ℕ
borrow_of true _ = 1
borrow_of false true = 1
borrow_of false false = 0

-- The loop of `words_sub` under the borrow of the word before.
unfoldable pub sub_loop : List ℕ → List ℕ → ℕ → List ℕ
sub_loop (a ∷ as') (b ∷ bs) borrow =
    let (x, b1) = overflowing_sub a b in
    let (y, b2) = overflowing_sub x borrow in y ∷ sub_loop as' bs (borrow_of b1 b2)
sub_loop _ _ borrow = []

unfoldable pub words_sub : List ℕ → List ℕ → List ℕ
words_sub a b = sub_loop a b 0

-- The word `i` of `l_shifted`, for a shift by `wsh` words and `bsh` bits.
abbrev shifted_word : ℕ → ℕ → ℕ → ℕ
shifted_word wsh bsh i =
    if ltb i wsh
    then 0
    else if bsh == 0
    then get_or order_words (i - wsh) 0
    else bit_or (u64 (get_or order_words (i - wsh) 0 <<< bsh))
        (if ltb wsh i then get_or order_words (i - wsh - 1) 0 >>> (64 - bsh) else 0)

-- `l_shifted`
unfoldable pub l_shifted : ℕ → List ℕ
l_shifted s = map (shifted_word (s / 64) (s % 64)) (0 ∷ 1 ∷ 2 ∷ 3 ∷ 4 ∷ 5 ∷ 6 ∷ 7 ∷ [])

-- One round of `reduce_mod_l`.
unfoldable pub reduce_round : ℕ → List ℕ → List ℕ
reduce_round s v = let t = l_shifted s in if words_geq v t then words_sub v t else v

-- The loop of `reduce_mod_l` over the shifts `n - 1, …, 0`.
unfoldable pub reduce_loop : ℕ → List ℕ → List ℕ
reduce_loop zero v = v
reduce_loop (suc s) v = reduce_loop s (reduce_round s v)

unfoldable pub reduce_mod_l : List ℕ → List ℕ
reduce_mod_l v = reduce_loop 260 v

-- `n` words from little-endian bytes, and the bytes of `n` words.
unfoldable pub load_words : ℕ → List ℕ → List ℕ
load_words zero s = []
load_words (suc n) s = le_value (take 8 s) ∷ load_words n (drop 8 s)

unfoldable pub store_words : List ℕ → List ℕ
store_words [] = []
store_words (w ∷ ws) = le_bytes 8 w ++ store_words ws

-- `sc_reduce`
unfoldable pub sc_reduce : List ℕ → List ℕ
sc_reduce h = store_words (take 4 (reduce_mod_l (load_words 8 h)))

-- The inner loop of the product: `rs` are the words of `r` from index `i` on; the last step adds
-- the carry to `r[i + 4]`.
unfoldable pub mul_row : ℕ → List ℕ → List ℕ → ℕ → List ℕ
mul_row a (b ∷ bs) (r ∷ rs) carry =
    let t = u128 (a * b + r + carry) in u64 t ∷ mul_row a bs rs (t >>> 64)
mul_row a [] (r ∷ rs) carry = u64 (u128 (r + carry)) ∷ rs
mul_row a _ [] carry = []

-- The outer loop; the word at index `i` is final after its round.
unfoldable pub mul_rows : List ℕ → List ℕ → List ℕ → List ℕ
mul_rows [] bs rs = rs
mul_rows (a ∷ as') bs rs = elim (mul_row a bs rs 0) [ [] ↦ [] | x ∷ xs ↦ x ∷ mul_rows as' bs xs ]

-- The loop that adds `c`, which has no words from the fifth on.
unfoldable pub add_loop : List ℕ → List ℕ → ℕ → List ℕ
add_loop [] _ carry = []
add_loop (r ∷ rs) [] carry = let t = u128 (r + 0 + carry) in u64 t ∷ add_loop rs [] (t >>> 64)
add_loop (r ∷ rs) (c ∷ cs) carry = let t = u128 (r + c + carry) in u64 t ∷ add_loop rs cs (t >>> 64)

-- `sc_muladd`
unfoldable pub sc_muladd : List ℕ → List ℕ → List ℕ → List ℕ
sc_muladd a b c =
    let product = mul_rows (load_words 4 a) (load_words 4 b) (replicate 8 0) in
    let sum = add_loop product (load_words 4 c) 0 in store_words (take 4 (reduce_mod_l sum))
