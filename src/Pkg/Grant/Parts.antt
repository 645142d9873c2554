-- ===== src/Pkg/Grant/Parts.antt =====
-- comp/src/pkg.rs: what `patterns_cover` and `sort` do, and the steps of a successful `compute_grant`.
use nmerkar.Base.{
  ℕ, ◌≡◌, ◌↔◌, ◌⊎◌, Bool, true, Option, List, [], ◌∷◌, ◌++◌, Text, Elem, Elem_of_any, any_of_Elem,
  keep, arith, Bool-cases, Option-cases, inl, inr, subst,
}
use nmerkar.Base.Results.{ok, >>=-eq-ok}
use nmerkar.Sandbox.Pattern.{cap_names, pattern_matches}
use nmerkar.Sandbox.Pattern.Meaning.{Matches, pattern_matches_iff}
use nmerkar.Sandbox.Caps.{Caps}
use nmerkar.Sandbox.Effective.{SandboxFile}
use nmerkar.Pkg.Grant.{
  UseSpec, is_some, patterns_cover, check_tokens, check_declared, policy_base, text_leb,
  insert_sorted, sort, granted, check_required, names_of, compute_grant,
}

-- Some pattern of the list matches the capability.
pub record Covered (patterns : List Text) (name : Text) : Type 0 where
  pub pattern' : Text
  pub specificity : ℕ
  pub listed : Elem pattern' patterns
  pub matches : Matches pattern' name specificity

pub patterns_cover_iff :
    (patterns : List Text) (name : Text)
    → (patterns_cover patterns name ≡ true) ↔ Covered patterns name
unfolding patterns_cover
patterns_cover_iff patterns name = (
  λ h.
      let (p, m, e) = Elem_of_any (λ p. is_some (pattern_matches p name)) patterns h in
      elim (Option-cases (pattern_matches p name)) [
        | inl f ↦ absurd (ground (arith, e, f))
        | inr (s, f) ↦ record {
          pattern' = p;
          specificity = s;
          listed = m;
          matches = (pattern_matches_iff p name s).0 f;
        }
      ],
  λ c.
      any_of_Elem (λ p. is_some (pattern_matches p name)) c.pattern' patterns c.listed
        (ground (arith, (pattern_matches_iff c.pattern' name c.specificity).1 c.matches)),
)

Elem-insert_sorted :
    (a t : Text) (us : List Text) → Elem a (insert_sorted t us) ↔ ((t ≡ a) ⊎ Elem a us)
unfolding insert_sorted
Elem-insert_sorted a t [] = ground arith
Elem-insert_sorted a t (u ∷ us) = elim (Bool-cases (text_leb t u)) [
  | inl e ↦ rw e (ground arith)
  | inr e ↦ rw e (ground (arith, Elem-insert_sorted a t us))
]

pub Elem-sort : (a : Text) (ts : List Text) → Elem a (sort ts) ↔ Elem a ts
unfolding sort
Elem-sort a [] = (λ h. h, λ h. h)
Elem-sort a (t ∷ ts) = ground (arith, Elem-sort a ts, Elem-insert_sorted a t (sort ts))

-- The parts of a successful computation.
pub record Parts (spec : UseSpec) (declared : List (Text × Bool)) (program_caps : Caps)
    (baked : Option SandboxFile) (grant : List Text) : Type 0 where
  pub base : List Text
  pub policy : policy_base baked spec.policy ≡ ok base
  pub is_grant : grant ≡ sort (keep (granted spec base (names_of declared) program_caps) cap_names)
  pub tokens : check_tokens (spec.allows ++ spec.denies) ≡ ok tt
  pub declares : check_declared (names_of declared) spec.allows ≡ ok tt
  pub required : check_required grant declared ≡ ok tt

pub compute_grant-Parts :
    (spec : UseSpec) (declared : List (Text × Bool)) (program_caps : Caps)
    (baked : Option SandboxFile) (grant : List Text)
    → compute_grant spec declared program_caps baked ≡ ok grant
    → Parts spec declared program_caps baked grant
unfolding compute_grant
compute_grant-Parts spec declared program_caps baked grant h =
    let (_, t, h1) = >>=-eq-ok (check_tokens (spec.allows ++ spec.denies)) _ h in
    let (_, d, h2) = >>=-eq-ok (check_declared (names_of declared) spec.allows) _ h1 in
    let (base, p, h3) = >>=-eq-ok (policy_base baked spec.policy) _ h2 in
    let g = sort (keep (granted spec base (names_of declared) program_caps) cap_names) in
    let (_, r, h4) = >>=-eq-ok (check_required g declared) _ h3 in
    record {
      base = base;
      policy = p;
      is_grant = ground arith;
      tokens = t;
      declares = d;
      required =
          let same : g ≡ grant = cc in
          subst (λ (x : List Text). check_required x declared ≡ ok tt) same r;
    }
