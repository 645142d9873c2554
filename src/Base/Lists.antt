-- ===== src/Base/Lists.antt =====
-- Lists measured and indexed by native numbers, under the library's names, with the searches
-- of Rust's iterators and an untruncated membership.
use Prim.Native.Nat.{ℕ, zero, suc, ◌+◌, ◌-◌, min}
use mathlib.Core.Path.{◌≡◌, refl, ap}
use mathlib.Core.Logic.{◌↔◌, ◌⊎◌, inl, inr}
use mathlib.Core.Bool.{Bool, true, false, ◌&&◌, ◌||◌}
use mathlib.Core.List.{List, [], ◌∷◌, ◌++◌}
use mathlib.Core.Option.{Option, none, some}
use native.Mathlib.Omega.{arith}
use nmerkar.Base.Tests.{if◌then◌else◌, Bool-cases}

module _ {ℓ} {A : Type ℓ} where
  abbrev pub length : List A → ℕ
  length [] = 0
  length (x ∷ xs) = suc (length xs)

  abbrev pub get_elem? : List A → ℕ → Option A
  get_elem? [] i = none
  get_elem? (x ∷ xs) zero = some x
  get_elem? (x ∷ xs) (suc i) = get_elem? xs i

  abbrev pub get_or : List A → ℕ → A → A
  get_or [] i d = d
  get_or (x ∷ xs) zero d = x
  get_or (x ∷ xs) (suc i) d = get_or xs i d

  abbrev pub take : ℕ → List A → List A
  take zero xs = []
  take (suc n) [] = []
  take (suc n) (x ∷ xs) = x ∷ take n xs

  abbrev pub drop : ℕ → List A → List A
  drop zero xs = xs
  drop (suc n) [] = []
  drop (suc n) (x ∷ xs) = drop n xs

  abbrev pub replicate : ℕ → A → List A
  replicate zero a = []
  replicate (suc n) a = a ∷ replicate n a

  -- `iter().any(p)`
  abbrev pub any : (A → Bool) → List A → Bool
  any p [] = false
  any p (x ∷ xs) = p x || any p xs

  -- `iter().all(p)`
  abbrev pub all : (A → Bool) → List A → Bool
  all p [] = true
  all p (x ∷ xs) = p x && all p xs

  -- `iter().find(p)`
  abbrev pub find : (A → Bool) → List A → Option A
  find p [] = none
  find p (x ∷ xs) = if p x then some x else find p xs

  -- `iter().filter(p)`
  abbrev pub keep : (A → Bool) → List A → List A
  keep p [] = []
  keep p (x ∷ xs) = if p x then x ∷ keep p xs else keep p xs

module _ {ℓ} {A : Type ℓ} where
  pub length-append : (xs ys : List A) → length (xs ++ ys) ≡ length xs + length ys
  length-append [] ys = omega arith
  length-append (x ∷ xs) ys = omega (arith, length-append xs ys)

  pub length-take : (n : ℕ) (xs : List A) → length (take n xs) ≡ min n (length xs)
  length-take zero xs = omega arith
  length-take (suc n) [] = omega arith
  length-take (suc n) (x ∷ xs) = omega (arith, length-take n xs)

  pub length-drop : (n : ℕ) (xs : List A) → length (drop n xs) ≡ length xs - n
  length-drop zero xs = omega arith
  length-drop (suc n) [] = omega arith
  length-drop (suc n) (x ∷ xs) = omega (arith, length-drop n xs)

  pub length-replicate : (n : ℕ) (a : A) → length (replicate n a) ≡ n
  length-replicate zero a = refl
  length-replicate (suc n) a = ap suc (length-replicate n a)

  pub take-append-drop : (n : ℕ) (xs : List A) → take n xs ++ drop n xs ≡ xs
  take-append-drop zero xs = refl
  take-append-drop (suc n) [] = refl
  take-append-drop (suc n) (x ∷ xs) = ap (◌∷◌ x) (take-append-drop n xs)

module _ {A : Type 0} where
  -- Membership that computes to sums, which the tactics take apart.
  abbrev pub Elem : A → List A → Type 0
  Elem a [] = ⊥
  Elem a (x ∷ xs) = (x ≡ a) ⊎ Elem a xs

  pub Elem-keep :
      (p : A → Bool) (a : A) (xs : List A) → Elem a (keep p xs) ↔ (Elem a xs × (p a ≡ true))
  Elem-keep p a [] = (λ h. absurd h, λ h. absurd h.0)
  Elem-keep p a (x ∷ xs) = elim (Bool-cases (p x)) [
    | inl e ↦ rw e (ground (arith, Elem-keep p a xs, e))
    | inr e ↦ rw e (ground (arith, Elem-keep p a xs, e))
  ]

  pub Elem-left : (xs ys : List A) (a : A) → Elem a xs → Elem a (xs ++ ys)
  Elem-left [] ys a m = absurd m
  Elem-left (x ∷ xs) ys a (inl e) = inl e
  Elem-left (x ∷ xs) ys a (inr m) = inr (Elem-left xs ys a m)

  pub Elem-right : (xs ys : List A) (a : A) → Elem a ys → Elem a (xs ++ ys)
  Elem-right [] ys a m = m
  Elem-right (x ∷ xs) ys a m = inr (Elem-right xs ys a m)

  pub Elem-split : (xs ys : List A) (a : A) → Elem a (xs ++ ys) → Elem a xs ⊎ Elem a ys
  Elem-split [] ys a m = inr m
  Elem-split (x ∷ xs) ys a (inl e) = inl (inl e)
  Elem-split (x ∷ xs) ys a (inr m) = elim (Elem-split xs ys a m) [
    | inl h ↦ inl (inr h)
    | inr h ↦ inr h
  ]

  pub any_of_Elem : (p : A → Bool) (a : A) (xs : List A) → Elem a xs → p a ≡ true → any p xs ≡ true
  any_of_Elem p a [] h e = absurd h
  any_of_Elem p a (x ∷ xs) h e = ground (arith, any_of_Elem p a xs)

  pub Elem_of_any :
      (p : A → Bool) (xs : List A) → any p xs ≡ true → (a : A) × Elem a xs × (p a ≡ true)
  Elem_of_any p [] h = absurd (ground arith)
  Elem_of_any p (x ∷ xs) h = elim (Bool-cases (p x)) [
    | inl e ↦ (x, inl refl, e)
    | inr e ↦ let (a, m, q) = Elem_of_any p xs (ground arith) in (a, inr m, q)
  ]

  pub all-append :
      (p : A → Bool) (xs ys : List A) → all p xs ≡ true → all p ys ≡ true → all p (xs ++ ys) ≡ true
  all-append p [] ys h k = k
  all-append p (x ∷ xs) ys h k = ground (arith, all-append p xs ys)

  pub all-weaken :
      (p q : A → Bool)
      → ((a : A) → p a ≡ true → q a ≡ true)
      → (xs : List A) → all p xs ≡ true
      → all q xs ≡ true
  all-weaken p q f [] h = refl
  all-weaken p q f (x ∷ xs) h = ground (arith, f x, all-weaken p q f xs)
