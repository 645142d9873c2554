-- ===== src/Pkg/Tests.antt =====
-- Runs of the package code on small inputs, and its theorems at such inputs.
use nmerkar.Base.{
  ◌≡◌, ◌↔◌, refl, inl, inr, Bool, true, false, none, some, List, [], ◌∷◌, Text, codes, contains,
  lookup, insert, remove, Elem, starts_with, ◌++◌,
}
use nmerkar.Base.Results.{ok, err}
use nmerkar.Sandbox.Files.{FileSystem}
use nmerkar.Sandbox.Pattern.{pattern_matches}
use nmerkar.Sandbox.Caps.{Caps, cap, unrestricted, apply_rules, apply_caps}
use nmerkar.Sandbox.Resolve.{resolve_cap, best_match}
use nmerkar.Sandbox.Effective.{
  Outcome, finish, bake, effective, caps_for_grants, grants_file, tighten,
}
use nmerkar.Pkg.Grant.{
  UseSpec, compute_grant, check_tokens, check_declared, check_required, patterns_cover, sort,
  insert_sorted, text_leb, is_cap_token, names_of, starved, undeclared,
}
use nmerkar.Pkg.Grant.Laws.{InGrant, compute_grant_iff}
use nmerkar.Pkg.Grant.Attenuation.{package-attenuated}

abbrev disk : FileSystem
disk = record {
  is_absolute = starts_with (codes "/");
  current_dir = codes "/w";
  temp_dir = codes "/tmp";
  join = λ a b. a ++ codes "/" ++ b;
  canonicalize = λ p. some p;
  path_starts_with = λ p r. starts_with r p;
  exists = λ p. true;
  parent = λ p. none;
}

abbrev site : List Text → List Text → UseSpec
site allows denies = record {
  alias = none;
  source = codes "gh:x/y";
  policy = none;
  allows = allows;
  denies = denies;
}

abbrev declared : List (Text × Bool)
declared = (codes "fs.read", false) ∷ (codes "proc", true) ∷ []

-- The `grant_algebra` test of comp/src/pkg.rs.
grant_algebra :
    (compute_grant (site [] []) declared unrestricted none ≡ err (starved (codes "proc")))
    × (compute_grant (site (codes "proc" ∷ []) []) declared unrestricted none
        ≡ ok (codes "proc" ∷ []))
    × (compute_grant (site (codes "proc" ∷ codes "fs.*" ∷ []) []) declared unrestricted none
        ≡ ok (codes "fs.read" ∷ codes "proc" ∷ []))
    × (compute_grant
          (site (codes "proc" ∷ codes "fs.*" ∷ []) (codes "fs.read" ∷ []))
          declared
          unrestricted
          none
        ≡ ok (codes "proc" ∷ []))
    × (compute_grant (site (codes "proc" ∷ codes "host.argv" ∷ []) []) declared unrestricted none
        ≡ err (undeclared (codes "host.argv")))
unfolding compute_grant check_tokens check_declared check_required patterns_cover sort insert_sorted
    text_leb is_cap_token pattern_matches contains cap lookup
grant_algebra = (refl, refl, refl, refl, refl)

abbrev wide_site : UseSpec
wide_site = site (codes "proc" ∷ codes "fs.*" ∷ []) []

abbrev grant : List Text
grant = codes "fs.read" ∷ codes "proc" ∷ []

given : compute_grant wide_site declared unrestricted none ≡ ok grant
given = grant_algebra.2

compute_grant_iff_example :
    Elem (codes "proc") grant ↔ InGrant wide_site declared unrestricted none (codes "proc")
compute_grant_iff_example =
    compute_grant_iff wide_site declared unrestricted none grant (codes "proc") given

nothing_given : compute_grant (site [] []) [] unrestricted none ≡ ok []
unfolding compute_grant check_tokens check_declared check_required patterns_cover sort contains
nothing_given = refl

abbrev gate : Caps
gate =
    finish disk [] [] (codes "/w") (codes "package-grants") (codes "package use grants")
      (bake disk (grants_file grant).base)

gate_by : caps_for_grants disk grant (codes "/w") ≡ Outcome.ok gate
unfolding caps_for_grants effective
gate_by = refl

runs_processes : cap gate (codes "proc") ≡ true
unfolding finish tighten cap apply_rules apply_caps resolve_cap best_match pattern_matches lookup
    insert remove
runs_processes = refl

package-attenuated_example :
    Elem (codes "proc") (names_of declared) × (cap unrestricted (codes "proc") ≡ true)
package-attenuated_example =
    package-attenuated disk wide_site declared unrestricted none grant (codes "/w") gate given
      gate_by (codes "proc") (inr (inr (inl refl))) runs_processes
