-- ===== src/Sandbox/Resolve/Laws.antt =====
-- When `resolve_cap` denies, stated by the meaning of the patterns.
use nmerkar.Base.{
  ℕ, ◌≤◌, ◌≡◌, ◌↔◌, ◌⊎◌, refl, Option, none, some, List, [], ◌∷◌, Text, ltb, arith, Bool-cases,
  Option-cases, inl, inr, Elem,
}
use nmerkar.Sandbox.Pattern.{pattern_matches}
use nmerkar.Sandbox.Pattern.Meaning.{Matches, pattern_matches_iff}
use nmerkar.Sandbox.Resolve.{denied, Rules, improve, best_match, resolve_cap}

improve-some : (b : ℕ) (o : Option ℕ) → (c : ℕ) × (improve (some b) o ≡ some c) × (b ≤ c)
improve-some b none = (b, refl, omega arith)
improve-some b (some s) = elim (Bool-cases (ltb b s)) [
  | inl more ↦ (s, ground (arith, more), ground (arith, more))
  | inr less ↦ (b, ground (arith, less), omega arith)
]

improve-ge : (best : Option ℕ) (s : ℕ) → (c : ℕ) × (improve best (some s) ≡ some c) × (s ≤ c)
improve-ge none s = (s, refl, omega arith)
improve-ge (some b) s = elim (Bool-cases (ltb b s)) [
  | inl more ↦ (s, ground (arith, more), omega arith)
  | inr less ↦ (b, ground (arith, less), ground (arith, less))
]

-- A best match is at least the one it starts from.
best_match-ge :
    (b : ℕ) (ps : List Text) (cap : Text)
    → (d : ℕ) × (best_match (some b) ps cap ≡ some d) × (b ≤ d)
unfolding best_match
best_match-ge b [] cap = (b, refl, omega arith)
best_match-ge b (p ∷ ps) cap =
    let (c, e, below) = improve-some b (pattern_matches p cap) in
    let (d, f, above) = best_match-ge c ps cap in (d, rw e f, omega arith)

-- It is at least the specificity of every pattern on the list that matches.
best_match-upper :
    (best : Option ℕ) (ps : List Text) (cap p : Text) (s : ℕ)
    → Elem p ps
    → pattern_matches p cap ≡ some s
    → (d : ℕ) × (best_match best ps cap ≡ some d) × (s ≤ d)
unfolding best_match
best_match-upper best [] cap p s m e = absurd m
best_match-upper best (q ∷ ps) cap p s (inl same) e =
    let (c, f, below) = improve-ge best s in
    let (d, g, above) = best_match-ge c ps cap in
    let first : pattern_matches q cap ≡ some s = rw same e in (d, rw (first, f) g, omega arith)
best_match-upper best (q ∷ ps) cap p s (inr later) e =
    best_match-upper (improve best (pattern_matches q cap)) ps cap p s later e

improve_cases :
    (best o : Option ℕ) (d : ℕ) → improve best o ≡ some d → (best ≡ some d) ⊎ (o ≡ some d)
improve_cases best none d h = inl h
improve_cases none (some s) d h = inr h
improve_cases (some b) (some s) d h = ground arith

-- It is the specificity of a pattern on the list, or the one it starts from.
best_match-Elem :
    (best : Option ℕ) (ps : List Text) (cap : Text) (d : ℕ)
    → best_match best ps cap ≡ some d
    → (best ≡ some d) ⊎ ((p : Text) × Elem p ps × (pattern_matches p cap ≡ some d))
unfolding best_match
best_match-Elem best [] cap d h = inl h
best_match-Elem best (q ∷ ps) cap d h =
    elim (best_match-Elem (improve best (pattern_matches q cap)) ps cap d h) [
      | inl e ↦ elim (improve_cases best (pattern_matches q cap) d e) [
        | inl old ↦ inl old
        | inr new ↦ inr (q, inl refl, new)
      ]
      | inr (p, m, e) ↦ inr (p, inr m, e)
    ]

pub record DeniedBy (rules : Rules) (cap : Text) : Type 0 where
  pub pattern' : Text
  pub specificity : ℕ
  pub listed : Elem pattern' rules.deny
  pub matches : Matches pattern' cap specificity
  pub unbeaten : (q : Text) (a : ℕ) → Elem q rules.allow → Matches q cap a → a ≤ specificity

resolve_cap_sound :
    (rules : Rules) (cap : Text) → resolve_cap rules cap ≡ denied → DeniedBy rules cap
unfolding resolve_cap
resolve_cap_sound rules cap h = elim (Option-cases (best_match none rules.deny cap)) [
  | inl e ↦ absurd (ground (arith, e))
  | inr (d, e) ↦ elim (best_match-Elem none rules.deny cap d e) [
    | inl f ↦ absurd (ground arith)
    | inr (p, m, f) ↦ record {
      pattern' = p;
      specificity = d;
      listed = m;
      matches = (pattern_matches_iff p cap d).0 f;
      unbeaten = λ q a mq fq.
          let (b, g, above) =
            best_match-upper none rules.allow cap q a mq ((pattern_matches_iff q cap a).1 fq) in
          ground (arith, e, g, above);
    }
  ]
]

resolve_cap_complete :
    (rules : Rules) (cap : Text) → DeniedBy rules cap → resolve_cap rules cap ≡ denied
unfolding resolve_cap
resolve_cap_complete rules cap by =
    let here = (pattern_matches_iff by.pattern' cap by.specificity).1 by.matches in
    let (d, e, above) =
      best_match-upper none rules.deny cap by.pattern' by.specificity by.listed here in
    elim (Option-cases (best_match none rules.allow cap)) [
      | inl f ↦ ground (arith, e, f)
      | inr (a, f) ↦ elim (best_match-Elem none rules.allow cap a f) [
        | inl g ↦ absurd (ground arith)
        | inr (q, m, g) ↦
            let below = by.unbeaten q a m ((pattern_matches_iff q cap a).0 g) in
            ground (arith, e, f, above, below)
      ]
    ]

-- A capability is denied exactly when some deny pattern matches it and no allow pattern matches
-- it at a higher specificity: deny wins a tie, and what nothing denies is allowed.
pub resolve_cap-denied_iff :
    (rules : Rules) (cap : Text) → (resolve_cap rules cap ≡ denied) ↔ DeniedBy rules cap
resolve_cap-denied_iff rules cap = (resolve_cap_sound rules cap, resolve_cap_complete rules cap)
