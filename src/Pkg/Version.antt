-- ===== src/Pkg/Version.antt =====
-- comp/src/pkg.rs: the order of release tags.
mod Tests
use nmerkar.Base.{
  ℕ, ◌+◌, ◌-◌, ◌*◌, ◌^◌, leb, ltb, Bool, true, false, ◌&&◌, ◌||◌, List, [], ◌∷◌, any, Option, none,
  some, Text, codes, strip_prefix, if◌then◌else◌, ◌==◌, push,
}

-- `s.split(ch)` by the test of a character: there is always a first part.
unfoldable pub split : (ℕ → Bool) → Text → List Text
split p [] = [] ∷ []
split p (c ∷ s) = let rest = split p s in if p c then [] ∷ rest else push c rest

abbrev digit_of : ℕ → Option ℕ
digit_of c = if leb b'0' c && leb c b'9' then some (c - b'0') else none

-- The digits behind a number; the number must stay below 2^64.
unfoldable pub digits_from : ℕ → Text → Option ℕ
digits_from n [] = some n
digits_from n (c ∷ s) = elim (digit_of c) [
  | none ↦ none
  | some d ↦ elim (ltb (n * 10 + d) (2 ^ 64)) [ true ↦ digits_from (n * 10 + d) s | false ↦ none ]
]

-- `s.parse::<u64>().ok()`: a plus sign may stand in front, and there is a digit.
unfoldable pub parse_u64 : Text → Option ℕ
unfolding digits_from
parse_u64 [] = none
parse_u64 (c ∷ []) = digits_from 0 (c ∷ [])
parse_u64 (c ∷ d ∷ s) = if c == b'+' then digits_from 0 (d ∷ s) else digits_from 0 (c ∷ d ∷ s)

abbrev is_suffix : ℕ → Bool
is_suffix c = c == b'-' || c == b'+'

abbrev first_part : List Text → Text
first_part [] = []
first_part (t ∷ ts) = t

abbrev release : Text → ℕ
release t = if any (λ c. c == b'-') t then 0 else 1

abbrev key_of : Option ℕ → Option ℕ → Option ℕ → ℕ → Option (ℕ × ℕ × ℕ × ℕ)
key_of (some a) (some b) (some c) r = some (a, b, c, r)
key_of _ _ _ r = none

abbrev of_parts : Text → List Text → Option (ℕ × ℕ × ℕ × ℕ)
unfolding parse_u64 split
of_parts t (a ∷ b ∷ c ∷ []) =
    key_of (parse_u64 a) (parse_u64 b) (parse_u64 (first_part (split is_suffix c))) (release t)
of_parts t _ = none

abbrev without : Text → Option Text → Text
without t none = t
without t (some s) = s

-- `semver_key`
unfoldable pub semver_key : Text → Option (ℕ × ℕ × ℕ × ℕ)
unfolding of_parts split strip_prefix
semver_key tag =
    let t = without tag (strip_prefix (codes "v") tag) in of_parts t (split (λ c. c == b'.') t)
