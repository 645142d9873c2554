-- ===== src/Pkg/Grant/Laws.antt =====
-- The grant is the set ((policy ∪ allow) − deny) ∩ declared ∩ program policy.
use nmerkar.Base.{
  ◌≡◌, ◌↔◌, ◌⊎◌, refl, sym, Bool, true, false, not, ◌||◌, Option, none, List, [], ◌∷◌, Text,
  contains, contains_iff, Elem, Elem-keep, keep, arith, Bool-cases, inl, inr, subst,
}
use nmerkar.Base.Results.{ok, >>=-eq-ok, require}
use nmerkar.Sandbox.Pattern.{cap_names}
use nmerkar.Sandbox.Caps.{Caps, cap}
use nmerkar.Sandbox.Effective.{SandboxFile}
use nmerkar.Pkg.Grant.{
  UseSpec, starved, patterns_cover, policy_base, granted, check_required, names_of, compute_grant,
}
use nmerkar.Pkg.Grant.Parts.{Covered, patterns_cover_iff, Elem-sort, compute_grant-Parts}

-- The four conditions of the grant algebra on one capability.
pub record InGrant (spec : UseSpec) (declared : List (Text × Bool)) (program_caps : Caps)
    (baked : Option SandboxFile) (name : Text) : Type 0 where
  pub base : List Text
  pub policy : policy_base baked spec.policy ≡ ok base
  pub is_capability : Elem name cap_names
  pub offered : Covered base name ⊎ Covered spec.allows name
  pub not_denied : ¬ Covered spec.denies name
  pub declares : Elem name (names_of declared)
  pub in_program : cap program_caps name ≡ true

granted_iff :
    (spec : UseSpec) (base : List Text) (declared : List (Text × Bool)) (program_caps : Caps)
    (name : Text)
    → (granted spec base (names_of declared) program_caps name ≡ true) ↔ (
        (Covered base name ⊎ Covered spec.allows name)
        × (¬ Covered spec.denies name)
        × Elem name (names_of declared)
        × (cap program_caps name ≡ true))
granted_iff spec base declared program_caps name = (
  λ h. (
    elim (Bool-cases (patterns_cover base name)) [
      | inl e ↦ inl ((patterns_cover_iff base name).0 e)
      | inr e ↦ inr ((patterns_cover_iff spec.allows name).0 (ground (arith, e)))
    ],
    λ c. absurd (ground (arith, (patterns_cover_iff spec.denies name).1 c)),
    (contains_iff (names_of declared) name).0 (ground arith),
    ground arith,
  ),
  λ x.
      let here : (patterns_cover base name || patterns_cover spec.allows name) ≡ true = elim x.0 [
        | inl b ↦ ground (arith, (patterns_cover_iff base name).1 b)
        | inr a ↦ ground (arith, (patterns_cover_iff spec.allows name).1 a)
      ] in
      let undenied : patterns_cover spec.denies name ≡ false =
        elim (Bool-cases (patterns_cover spec.denies name)) [
          | inl e ↦ absurd (x.1 ((patterns_cover_iff spec.denies name).0 e))
          | inr e ↦ e
        ] in
      ground (arith, here, undenied, (contains_iff (names_of declared) name).1 x.2, x.3),
)

-- A grant that is given holds a capability exactly when the policy or the allow clause covers
-- it, the deny clause does not, the package declares it and the program has it.
pub compute_grant_iff :
    (spec : UseSpec) (declared : List (Text × Bool)) (program_caps : Caps)
    (baked : Option SandboxFile) (grant : List Text) (name : Text)
    → compute_grant spec declared program_caps baked ≡ ok grant
    → Elem name grant ↔ InGrant spec declared program_caps baked name
compute_grant_iff spec declared program_caps baked grant name h =
    let parts = compute_grant-Parts spec declared program_caps baked grant h in
    let test = granted spec parts.base (names_of declared) program_caps in
    (
      λ m.
          let sorted = (Elem-sort name (keep test cap_names)).0 (rw parts.is_grant at m) in
          let (listed, e) = (Elem-keep test name cap_names).0 sorted in
          let (offered, undenied, declares, has) =
            (granted_iff spec parts.base declared program_caps name).0 e in
          record {
            base = parts.base;
            policy = parts.policy;
            is_capability = listed;
            offered = offered;
            not_denied = undenied;
            declares = declares;
            in_program = has;
          },
      λ g.
          let same : g.base ≡ parts.base = cc (g.policy, parts.policy) in
          let e =
            (granted_iff spec g.base declared program_caps name).1
              (g.offered, g.not_denied, g.declares, g.in_program) in
          let e' =
            subst (λ (b : List Text). granted spec b (names_of declared) program_caps name ≡ true)
              same e in
          subst (λ (x : List Text). Elem name x) (sym parts.is_grant)
            ((Elem-sort name (keep test cap_names)).1
              ((Elem-keep test name cap_names).1 (g.is_capability, e'))),
    )

-- A use site with neither a policy nor an allow clause grants nothing, where a grant is given.
pub compute_grant-default :
    (spec : UseSpec) (declared : List (Text × Bool)) (program_caps : Caps)
    (baked : Option SandboxFile) (grant : List Text)
    → spec.policy ≡ none
    → spec.allows ≡ []
    → compute_grant spec declared program_caps baked ≡ ok grant
    → grant ≡ []
compute_grant-default spec declared program_caps baked grant no_policy no_allows h =
    empty grant (λ name m.
      let g = (compute_grant_iff spec declared program_caps baked grant name h).0 m in
      let nothing : g.base ≡ [] = ground (arith, g.policy, no_policy) in
      elim g.offered [
        | inl c ↦ absurd (rw nothing at c.listed)
        | inr c ↦ absurd (rw no_allows at c.listed)
      ])
  where
    empty : (xs : List Text) → ((x : Text) → ¬ Elem x xs) → xs ≡ []
    empty [] none_in = refl
    empty (x ∷ xs) none_in = absurd (none_in x (inl refl))

check_required-Elem :
    (grant : List Text) (name : Text) (ds : List (Text × Bool))
    → check_required grant ds ≡ ok tt
    → Elem (name, true) ds
    → Elem name grant
unfolding check_required
check_required-Elem grant name [] e m = absurd m
check_required-Elem grant name ((c, required) ∷ ds) e (inl same) =
    (contains_iff grant name).0 (elim (Bool-cases (contains grant c)) [
      | inl kept ↦ ground (arith, kept)
      | inr lost ↦ ground (arith, lost)
    ])
check_required-Elem grant name ((c, required) ∷ ds) e (inr m) =
    let (_, _, later) = >>=-eq-ok (require (not required || contains grant c) (starved c)) _ e in
    check_required-Elem grant name ds later m

-- A required capability is in every grant that is given.
pub compute_grant-required :
    (spec : UseSpec) (declared : List (Text × Bool)) (program_caps : Caps)
    (baked : Option SandboxFile) (grant : List Text) (name : Text)
    → Elem (name, true) declared
    → compute_grant spec declared program_caps baked ≡ ok grant
    → Elem name grant
compute_grant-required spec declared program_caps baked grant name m h =
    check_required-Elem grant name declared
      (compute_grant-Parts spec declared program_caps baked grant h).required m
