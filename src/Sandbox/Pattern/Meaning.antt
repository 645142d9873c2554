-- ===== src/Sandbox/Pattern/Meaning.antt =====
-- What a capability pattern means, apart from the code: an inductive relation.
use nmerkar.Base.{
  ℕ, ◌≡◌, ◌≢◌, ◌↔◌, refl, ◌∙◌, true, some, [], ◌∷◌, ◌++◌, Text, codes, text_eq, text_eq_iff,
  strip_prefix, strip_prefix_iff, strip_suffix, strip_suffix_iff, starts_with, arith, Bool-cases,
  Option-cases, inl, inr, ap,
}
use nmerkar.Sandbox.Pattern.{match_under, pattern_matches}

pub data Matches : Text → Text → ℕ → Type 0 where
  everything : {pat cap : Text} {s : ℕ} → pat ≡ codes "*" → s ≡ 0 → Matches pat cap s
  under :
      {pat cap : Text} {s : ℕ} (prefix rest : Text)
      → pat ≡ prefix ++ codes ".*"
      → cap ≡ prefix ++ (codes "." ++ rest)
      → s ≡ 1
      → Matches pat cap s
  exact :
      {pat cap : Text} {s : ℕ}
      → pat ≢ codes "*"
      → ((prefix : Text) → pat ≢ prefix ++ codes ".*")
      → pat ≡ cap
      → s ≡ 2
      → Matches pat cap s

star-ne-under : (prefix : Text) → codes "*" ≢ prefix ++ codes ".*"
star-ne-under [] e = cc
star-ne-under (c ∷ []) e = cc
star-ne-under (c ∷ d ∷ p) e = cc

match_under_sound :
    (prefix cap : Text) (s : ℕ)
    → match_under prefix cap ≡ some s
    → (rest : Text) × (cap ≡ prefix ++ (codes "." ++ rest)) × (s ≡ 1)
unfolding match_under starts_with
match_under_sound prefix cap s h = elim (Option-cases (strip_prefix prefix cap)) [
  | inl e ↦ absurd (ground (arith, e))
  | inr (rest, e) ↦ elim (Option-cases (strip_prefix (codes ".") rest)) [
    | inl f ↦ absurd (ground (arith, e, f))
    | inr (tail, f) ↦
        let dotted = (strip_prefix_iff (codes ".") rest tail).0 f in
        let whole = (strip_prefix_iff prefix cap rest).0 e in
        (tail, whole ∙ ap (λ (t : Text). prefix ++ t) dotted, ground (arith, e, f))
  ]
]

match_under_complete :
    (prefix rest : Text) → match_under prefix (prefix ++ (codes "." ++ rest)) ≡ some 1
unfolding match_under starts_with
match_under_complete prefix rest =
    let tail : Text = codes "." ++ rest in
    let cut = (strip_prefix_iff prefix (prefix ++ tail) tail).1 refl in
    let dot = (strip_prefix_iff (codes ".") tail rest).1 refl in ground (arith, cut, dot)

pattern_matches_sound :
    (pat cap : Text) (s : ℕ) → pattern_matches pat cap ≡ some s → Matches pat cap s
unfolding pattern_matches
pattern_matches_sound pat cap s h = elim (Bool-cases (text_eq pat (codes "*"))) [
  | inl star ↦ Matches.everything ((text_eq_iff pat (codes "*")).0 star) (ground (arith, star))
  | inr other ↦ elim (Option-cases (strip_suffix (codes ".*") pat)) [
    | inl plain ↦
        let same : text_eq pat cap ≡ true = ground (arith, other, plain) in
        Matches.exact (λ e. ground (arith, other, text_eq_iff pat (codes "*")))
          (λ prefix e. ground (arith, plain, strip_suffix_iff (codes ".*") pat prefix))
          ((text_eq_iff pat cap).0 same) (ground (arith, other, plain, same))
    | inr (prefix, dotted) ↦
        let (rest, e, one) = match_under_sound prefix cap s (ground (arith, other, dotted)) in
        Matches.under prefix rest ((strip_suffix_iff (codes ".*") pat prefix).0 dotted) e one
  ]
]

pattern_matches_complete :
    (pat cap : Text) (s : ℕ) → Matches pat cap s → pattern_matches pat cap ≡ some s
unfolding pattern_matches
pattern_matches_complete pat cap s (Matches.everything star zero_s) =
    ground (arith, star, zero_s, text_eq_iff pat (codes "*"))
pattern_matches_complete pat cap s (Matches.under prefix rest dotted e one) = ground (
  arith,
  star-ne-under prefix,
  text_eq_iff pat (codes "*"),
  strip_suffix_iff (codes ".*") pat prefix,
  match_under_complete prefix rest,
)
pattern_matches_complete pat cap s (Matches.exact star dotted same two) =
    elim (Option-cases (strip_suffix (codes ".*") pat)) [
      | inl plain ↦ ground (arith, plain, text_eq_iff pat (codes "*"), text_eq_iff pat cap)
      | inr (prefix, e) ↦ absurd (dotted prefix ((strip_suffix_iff (codes ".*") pat prefix).0 e))
    ]

-- A pattern matches a capability at a specificity exactly when it is `*` (specificity 0), or
-- `prefix.*` with the capability going on behind `prefix.` (1), or the capability itself (2).
pub pattern_matches_iff :
    (pat cap : Text) (s : ℕ) → (pattern_matches pat cap ≡ some s) ↔ Matches pat cap s
pattern_matches_iff pat cap s =
    (pattern_matches_sound pat cap s, pattern_matches_complete pat cap s)
