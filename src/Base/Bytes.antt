-- ===== src/Base/Bytes.antt =====
-- Byte strings: `to_le_bytes`, `from_le_bytes`, `to_be_bytes`, `from_be_bytes`.
use Prim.Native.Nat.{ℕ, zero, suc, ◌+◌, ◌*◌, ◌/◌, ◌%◌, ◌^◌, ◌<◌}
use mathlib.Core.Path.{◌≡◌, refl, ap, ap₂, sym, ◌∙◌, subst}
use mathlib.Core.List.{List, [], ◌∷◌, ◌++◌, reverse, reverse-cons}
use native.Mathlib.Nat.{
  pow-suc, one-le-pow, mod-eq_of_lt, add-mul-mod_self_left, add-mul-div_left, div-eq_of_lt,
}
use native.Mathlib.Omega.{arith}
use nmerkar.Base.Lists.{length, length-append, take, drop}

-- `to_le_bytes` of a word of `n` bytes
unfoldable pub le_bytes : ℕ → ℕ → List ℕ
le_bytes zero x = []
le_bytes (suc n) x = x % 256 ∷ le_bytes n (x / 256)

-- `from_le_bytes`
unfoldable pub le_value : List ℕ → ℕ
le_value [] = 0
le_value (b ∷ bs) = b + 256 * le_value bs

-- `to_be_bytes`
unfoldable pub be_bytes : ℕ → ℕ → List ℕ
unfolding le_bytes
be_bytes n x = reverse (le_bytes n x)

-- `from_be_bytes`
unfoldable pub be_value : List ℕ → ℕ
unfolding le_value
be_value bs = le_value (reverse bs)

-- Every element is a byte.
abbrev pub IsBytes : List ℕ → Type 0
IsBytes [] = Unit
IsBytes (b ∷ bs) = (b < 256) × IsBytes bs

pub length-le_bytes : (n x : ℕ) → length (le_bytes n x) ≡ n
unfolding le_bytes
length-le_bytes zero x = refl
length-le_bytes (suc n) x = ap suc (length-le_bytes n (x / 256))

pub le_bytes-IsBytes : (n x : ℕ) → IsBytes (le_bytes n x)
unfolding le_bytes
le_bytes-IsBytes zero x = tt
le_bytes-IsBytes (suc n) x = (omega arith, le_bytes-IsBytes n (x / 256))

-- A word that fits is read back.
pub le_value-le_bytes : (n x : ℕ) → x < 256 ^ n → le_value (le_bytes n x) ≡ x
unfolding le_value le_bytes
le_value-le_bytes zero x h = omega arith
le_value-le_bytes (suc n) x h =
    omega (arith, le_value-le_bytes n (x / 256) (omega (arith, pow-suc 256 n)))

pub le_value-append :
    (xs ys : List ℕ) → le_value (xs ++ ys) ≡ le_value xs + 256 ^ length xs * le_value ys
unfolding le_value
le_value-append [] ys = omega arith
le_value-append (x ∷ xs) ys =
    omega (arith, le_value-append xs ys, ap (λ (t : ℕ). t * le_value ys) (pow-suc 256 (length xs)))

pub le_value-lt : (xs : List ℕ) → IsBytes xs → le_value xs < 256 ^ length xs
unfolding le_value
le_value-lt [] h = omega arith
le_value-lt (x ∷ xs) (b, bs) = omega (arith, le_value-lt xs bs, pow-suc 256 (length xs))

-- The first `n` bytes are the low part, the others the high part.
pub le_value_split :
    (n : ℕ) (xs : List ℕ) → le_value xs ≡ le_value (take n xs) + 256 ^ n * le_value (drop n xs)
unfolding le_value
le_value_split zero xs = omega arith
le_value_split (suc n) [] = omega arith
le_value_split (suc n) (x ∷ xs) =
    omega (arith, le_value_split n xs, ap (λ (t : ℕ). t * le_value (drop n xs)) (pow-suc 256 n))

pub le_value-take_lt : (n : ℕ) (xs : List ℕ) → IsBytes xs → le_value (take n xs) < 256 ^ n
unfolding le_value
le_value-take_lt zero xs h = omega arith
le_value-take_lt (suc n) [] h = omega (arith, one-le-pow (suc n) 256 (omega arith))
le_value-take_lt (suc n) (x ∷ xs) (b, bs) = omega (arith, le_value-take_lt n xs bs, pow-suc 256 n)

-- Dropping low bytes divides, taking them leaves the remainder.
pub le_value-drop :
    (n : ℕ) (xs : List ℕ) → IsBytes xs → le_value (drop n xs) ≡ le_value xs / 256 ^ n
le_value-drop n xs h =
    let positive : 0 < 256 ^ n = one-le-pow n 256 (omega arith) in
    let low = div-eq_of_lt (le_value-take_lt n xs h) in
    sym (
      ap (λ (t : ℕ). t / 256 ^ n) (le_value_split n xs)
      ∙ add-mul-div_left (le_value (take n xs)) (le_value (drop n xs)) positive
      ∙ omega (arith, low))

pub le_value-take :
    (n : ℕ) (xs : List ℕ) → IsBytes xs → le_value (take n xs) ≡ le_value xs % 256 ^ n
le_value-take n xs h = sym (
    ap (λ (t : ℕ). t % 256 ^ n) (le_value_split n xs)
    ∙ add-mul-mod_self_left (le_value (take n xs)) (256 ^ n) (le_value (drop n xs))
    ∙ mod-eq_of_lt (le_value-take_lt n xs h))

pub IsBytes-drop : (n : ℕ) (xs : List ℕ) → IsBytes xs → IsBytes (drop n xs)
IsBytes-drop zero xs h = h
IsBytes-drop (suc n) [] h = tt
IsBytes-drop (suc n) (x ∷ xs) h = IsBytes-drop n xs h.1

-- `from_le_bytes(s[i..i + n])`
pub le_value_slice :
    (i n : ℕ) (xs : List ℕ)
    → IsBytes xs
    → le_value (take n (drop i xs)) ≡ le_value xs / 256 ^ i % 256 ^ n
le_value_slice i n xs h =
    le_value-take n (drop i xs) (IsBytes-drop i xs h)
    ∙ ap (λ (t : ℕ). t % 256 ^ n) (le_value-drop i xs h)

pub IsBytes-append : (xs ys : List ℕ) → IsBytes xs → IsBytes ys → IsBytes (xs ++ ys)
IsBytes-append [] ys h k = k
IsBytes-append (x ∷ xs) ys (b, bs) k = (b, IsBytes-append xs ys bs k)

-- Byte strings of one length with one value are the same.
pub le_value_injective :
    (xs ys : List ℕ)
    → IsBytes xs
    → IsBytes ys
    → length xs ≡ length ys
    → le_value xs ≡ le_value ys
    → xs ≡ ys
unfolding le_value
le_value_injective [] [] h k n e = refl
le_value_injective [] (y ∷ ys) h k n e = absurd (omega arith)
le_value_injective (x ∷ xs) [] h k n e = absurd (omega arith)
le_value_injective (x ∷ xs) (y ∷ ys) h k n e =
    let first : x ≡ y = omega arith in
    let rest = le_value_injective xs ys h.1 k.1 (omega arith) (omega arith) in ap₂ ◌∷◌ first rest

length-reverse : (xs : List ℕ) → length (reverse xs) ≡ length xs
length-reverse [] = refl
length-reverse (x ∷ xs) =
    ap length (reverse-cons x xs)
    ∙ length-append (reverse xs) (x ∷ [])
    ∙ omega (arith, length-reverse xs)

pub length-be_bytes : (n x : ℕ) → length (be_bytes n x) ≡ n
unfolding be_bytes
length-be_bytes n x = length-reverse (le_bytes n x) ∙ length-le_bytes n x

IsBytes-reverse : (xs : List ℕ) → IsBytes xs → IsBytes (reverse xs)
IsBytes-reverse [] h = tt
IsBytes-reverse (x ∷ xs) (b, h) =
    subst IsBytes (sym (reverse-cons x xs))
      (IsBytes-append (reverse xs) (x ∷ []) (IsBytes-reverse xs h) (b, tt))

pub be_bytes-IsBytes : (n x : ℕ) → IsBytes (be_bytes n x)
unfolding be_bytes
be_bytes-IsBytes n x = IsBytes-reverse (le_bytes n x) (le_bytes-IsBytes n x)

pub IsBytes-take : (n : ℕ) (xs : List ℕ) → IsBytes xs → IsBytes (take n xs)
IsBytes-take zero xs h = tt
IsBytes-take (suc n) [] h = tt
IsBytes-take (suc n) (x ∷ xs) h = (h.0, IsBytes-take n xs h.1)
