-- ===== src/Base/Texts.antt =====
-- Rust strings as lists of code points, with the string operations the source uses.
use Prim.Native.Nat.{ℕ}
use Prim.Native.Char.{code}
use Prim.Native.String.{String}
use mathlib.Core.Path.{◌≡◌, refl, ap, ap₂, sym, ◌∙◌}
use mathlib.Core.Logic.{◌↔◌}
use mathlib.Core.Bool.{Bool, true, false, ◌&&◌, ◌||◌}
use mathlib.Core.List.{List, [], ◌∷◌, ◌++◌, reverse, reverse-append, reverse-reverse}
use mathlib.Core.Option.{Option, none, some}
use native.Mathlib.Omega.{arith}
use nmerkar.Base.Tests.{if◌then◌else◌, ◌==◌}
use nmerkar.Base.Lists.{any, keep, Elem, any_of_Elem, Elem_of_any}

abbrev pub Text : Type 0
Text = List ℕ

-- The code points of a literal.
abbrev pub codes : String → Text
codes String.[] = []
codes (String.◌∷◌ c s) = code c ∷ codes s

-- `a == b`
unfoldable pub text_eq : Text → Text → Bool
text_eq [] [] = true
text_eq (x ∷ xs) (y ∷ ys) = x == y && text_eq xs ys
text_eq _ _ = false

pub text_eq_iff : (a b : Text) → (text_eq a b ≡ true) ↔ (a ≡ b)
unfolding text_eq
text_eq_iff (x ∷ a) (y ∷ b) = ground (arith, text_eq_iff a b)
text_eq_iff _ _ = ground arith

pub text_eq_refl : (a : Text) → text_eq a a ≡ true
text_eq_refl a = (text_eq_iff a a).1 refl

-- `list.contains(t)`
unfoldable pub contains : List Text → Text → Bool
unfolding text_eq
contains xs t = any (λ x. text_eq x t) xs

pub contains_iff : (xs : List Text) (t : Text) → (contains xs t ≡ true) ↔ Elem t xs
unfolding contains
contains_iff xs t = (
  λ h. let (a, m, e) = Elem_of_any (λ x. text_eq x t) xs h in rw ((text_eq_iff a t).0 e) at m,
  λ m. any_of_Elem (λ x. text_eq x t) t xs m (text_eq_refl t),
)

-- `s.strip_prefix(p)`
unfoldable pub strip_prefix : Text → Text → Option Text
strip_prefix [] s = some s
strip_prefix (c ∷ p) [] = none
strip_prefix (c ∷ p) (d ∷ s) = if c == d then strip_prefix p s else none

pub strip_prefix_iff : (p s r : Text) → (strip_prefix p s ≡ some r) ↔ (s ≡ p ++ r)
unfolding strip_prefix
strip_prefix_iff [] s r = ground arith
strip_prefix_iff (c ∷ p) [] r = ground arith
strip_prefix_iff (c ∷ p) (d ∷ s) r = ground (arith, strip_prefix_iff p s r)

-- `s.starts_with(p)`
unfoldable pub starts_with : Text → Text → Bool
unfolding strip_prefix
starts_with p s = elim (strip_prefix p s) [ none ↦ false | some _ ↦ true ]

-- `s.strip_suffix(p)`
unfoldable pub strip_suffix : Text → Text → Option Text
unfolding strip_prefix
strip_suffix p s = elim (strip_prefix (reverse p) (reverse s)) [
  | none ↦ none
  | some r ↦ some (reverse r)
]

-- `s.ends_with(p)`
unfoldable pub ends_with : Text → Text → Bool
unfolding strip_suffix
ends_with p s = elim (strip_suffix p s) [ none ↦ false | some _ ↦ true ]

strip_suffix_sound :
    (p s r : Text) (o : Option Text)
    → strip_prefix (reverse p) (reverse s) ≡ o
    → elim o [ none ↦ none | some x ↦ some (reverse x) ] ≡ some r
    → s ≡ r ++ p
strip_suffix_sound p s r none e h = cc
strip_suffix_sound p s r (some x) e h =
    let last : reverse x ≡ r = cc in
    sym (reverse-reverse s)
    ∙ ap reverse ((strip_prefix_iff (reverse p) (reverse s) x).0 e)
    ∙ reverse-append (reverse p) x
    ∙ ap₂ ◌++◌ last (reverse-reverse p)

strip_suffix_complete : (p r : Text) → strip_suffix p (r ++ p) ≡ some r
unfolding strip_suffix
strip_suffix_complete p r =
    let start =
      (strip_prefix_iff (reverse p) (reverse (r ++ p)) (reverse r)).1 (reverse-append r p) in
    rw (start, strip_suffix) (ap some (reverse-reverse r))

pub strip_suffix_iff : (p s r : Text) → (strip_suffix p s ≡ some r) ↔ (s ≡ r ++ p)
unfolding strip_suffix
strip_suffix_iff p s r = (
  strip_suffix_sound p s r (strip_prefix (reverse p) (reverse s)) refl,
  λ e. rw e (strip_suffix_complete p r),
)

pub contains-nil : (t : Text) → contains [] t ≡ false
unfolding contains
contains-nil t = refl

pub contains-cons :
    (x : Text) (xs : List Text) (t : Text) → contains (x ∷ xs) t ≡ (text_eq x t || contains xs t)
unfolding contains
contains-cons x xs t = refl

pub contains-append :
    (xs ys : List Text) (t : Text) → contains (xs ++ ys) t ≡ (contains xs t || contains ys t)
contains-append [] ys t = ground (arith, contains-nil t)
contains-append (x ∷ xs) ys t =
    ground (arith, contains-append xs ys t, contains-cons x xs t, contains-cons x (xs ++ ys) t)

pub contains-keep :
    (p : Text → Bool) (xs : List Text) (t : Text) → contains (keep p xs) t ≡ (contains xs t && p t)
contains-keep p [] t = ground (arith, contains-nil t)
contains-keep p (x ∷ xs) t = ground (
  arith,
  contains-keep p xs t,
  contains-cons x xs t,
  contains-cons x (keep p xs) t,
  text_eq_iff x t,
)
