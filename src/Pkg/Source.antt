-- ===== src/Pkg/Source.antt =====
-- comp/src/pkg.rs: package sources and their references, line ends, and alias names.
use nmerkar.Base.{
  ℕ, ◌≡◌, ◌≢◌, refl, arith, Bool, true, false, ◌&&◌, ◌||◌, [], ◌∷◌, ◌++◌, Option, none, some, Text,
  map, strip_prefix, codes, starts_with, if◌then◌else◌, leb, ◌==◌, all, any, Bool-cases, inl, inr,
  ==_iff,
}

-- `is_schemed`
unfoldable pub is_schemed : Text → Bool
unfolding starts_with
is_schemed s =
    starts_with (codes "gh:") s
    || starts_with (codes "https://") s
    || starts_with (codes "http://") s
    || starts_with (codes "path:") s

abbrev pub cons_first : ℕ → Option (Text × Text) → Option (Text × Text)
cons_first c none = none
cons_first c (some (before, after)) = some (c ∷ before, after)

-- `rfind(ch)`, with the text before the last `ch` and the text behind it.
unfoldable pub split_last : ℕ → Text → Option (Text × Text)
split_last ch [] = none
split_last ch (c ∷ s) = elim (split_last ch s) [
  | some (before, after) ↦ some (c ∷ before, after)
  | none ↦ if c == ch then some ([], s) else none
]

-- `split_ref`: the guards are `i > 0`, a reference that is not empty, and a schemed source.
abbrev pub with_ref : Text → Option (Text × Text) → Text × Option Text
with_ref s (some (b ∷ before, r ∷ after)) =
    if is_schemed (b ∷ before) then (b ∷ before, some (r ∷ after)) else (s, none)
with_ref s _ = (s, none)

unfoldable pub split_ref : Text → Text × Option Text
split_ref s = with_ref s (split_last b'@' s)

split_last-none : (ch : ℕ) (s : Text) → any (λ c. c == ch) s ≡ false → split_last ch s ≡ none
unfolding split_last
split_last-none ch [] h = refl
split_last-none ch (c ∷ s) h = ground (arith, split_last-none ch s)

split_last_lem :
    (ch : ℕ) (before after : Text)
    → any (λ c. c == ch) after ≡ false
    → split_last ch (before ++ (ch ∷ after)) ≡ some (before, after)
unfolding split_last
split_last_lem ch [] after h =
    let same : (ch == ch) ≡ true = (==_iff ch ch).1 refl in
    rw (split_last-none ch after h, same) refl
split_last_lem ch (b ∷ before) after h = rw (split_last_lem ch before after h) refl

-- A schemed source with a reference behind an at sign is split into these two, where the
-- reference is not empty and has no at sign itself, whatever at signs the source has.
pub split_ref_lem :
    (id r : Text)
    → is_schemed id ≡ true
    → r ≢ []
    → any (λ c. c == b'@') r ≡ false
    → split_ref (id ++ (b'@' ∷ r)) ≡ (id, some r)
unfolding split_ref
split_ref_lem id r schemed ne clean = rw (split_last_lem b'@' id r clean) (accepted id r schemed ne)
  where
    nothing_schemed : is_schemed [] ≡ true → ⊥
    nothing_schemed h = unfold is_schemed starts_with strip_prefix in ground (arith, h)

    accepted :
        (id r : Text)
        → is_schemed id ≡ true
        → r ≢ []
        → with_ref (id ++ (b'@' ∷ r)) (some (id, r)) ≡ (id, some r)
    accepted [] r h ne' = absurd (nothing_schemed h)
    accepted (b ∷ id) [] h ne' = absurd (ne' refl)
    accepted (b ∷ id) (c ∷ r) h ne' = rw h refl

-- The loop of `normalize` over the decoded characters: CRLF and a lone CR become LF.
unfoldable pub normalize : Text → Text
normalize [] = []
normalize (c ∷ []) = (if c == 13 then 10 else c) ∷ []
normalize (c ∷ d ∷ s) =
    let behind = normalize s in
    let next = normalize (d ∷ s) in
    if c == 13 then 10 ∷ (if d == 10 then behind else next) else c ∷ next

abbrev pub has_return : Text → Bool
has_return = any (λ c. c == 13)

no_return-normalize : (s : Text) → has_return (normalize s) ≡ false
unfolding normalize
no_return-normalize [] = refl
no_return-normalize (c ∷ []) = ground arith
no_return-normalize (c ∷ d ∷ s) = ground (arith, no_return-normalize s, no_return-normalize (d ∷ s))

normalize_of_clean : (s : Text) → has_return s ≡ false → normalize s ≡ s
unfolding normalize
normalize_of_clean [] h = refl
normalize_of_clean (c ∷ []) h = ground arith
normalize_of_clean (c ∷ d ∷ s) h = ground (arith, normalize_of_clean (d ∷ s))

-- A normalized file has no carriage return, and normalizing it again changes nothing.
pub normalize_lem :
    (s : Text) → (has_return (normalize s) ≡ false) × (normalize (normalize s) ≡ normalize s)
normalize_lem s = (no_return-normalize s, normalize_of_clean (normalize s) (no_return-normalize s))

-- `sanitize_alias`: the loop behind the first character, and the whole.
abbrev is_alphanumeric : ℕ → Bool
is_alphanumeric c =
    (leb b'a' c && leb c b'z') || (leb b'A' c && leb c b'Z') || (leb b'0' c && leb c b'9')

abbrev pub is_digit : ℕ → Bool
is_digit c = leb b'0' c && leb c b'9'

abbrev pub is_name_char : ℕ → Bool
is_name_char c = is_alphanumeric c || c == b'_'

abbrev clean_char : ℕ → ℕ
clean_char c = if is_name_char c then c else b'_'

abbrev clean_first : ℕ → ℕ
clean_first c = if is_alphanumeric c then c else b'_'

abbrev cleaned : Text → Text
cleaned [] = []
cleaned (c ∷ s) = clean_first c ∷ map clean_char s

abbrev pub starts_badly : Text → Bool
starts_badly [] = true
starts_badly (c ∷ s) = is_digit c

unfoldable pub sanitize_alias : Text → Text
sanitize_alias a = let out = cleaned a in if starts_badly out then b'p' ∷ out else out

all-clean_char : (s : Text) → all is_name_char (map clean_char s) ≡ true
all-clean_char [] = refl
all-clean_char (c ∷ s) = ground (arith, all-clean_char s)

all-cleaned : (a : Text) → all is_name_char (cleaned a) ≡ true
all-cleaned [] = refl
all-cleaned (c ∷ s) = ground (arith, all-clean_char s)

-- A sanitized alias is a name: letters, digits and underscores, at least one of them, and no
-- digit at its start.
pub sanitize_alias_lem :
    (a : Text)
    → (all is_name_char (sanitize_alias a) ≡ true) × (starts_badly (sanitize_alias a) ≡ false)
unfolding sanitize_alias
sanitize_alias_lem a = elim (Bool-cases (starts_badly (cleaned a))) [
  | inl bad ↦ rw bad (all-cleaned a, refl)
  | inr good ↦ rw good (all-cleaned a, good)
]
