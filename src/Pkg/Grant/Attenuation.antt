-- ===== src/Pkg/Grant/Attenuation.antt =====
-- A package never has more than the program: `compute_grant` and then `caps_for_grants`.
use nmerkar.Base.{◌≡◌, Bool, true, Option, List, Text, contains, contains_iff, Elem, arith}
use nmerkar.Base.Results.{ok}
use nmerkar.Sandbox.Files.{FileSystem}
use nmerkar.Sandbox.Pattern.{cap_names}
use nmerkar.Sandbox.Caps.{Caps, cap}
use nmerkar.Sandbox.Effective.{SandboxFile, Outcome, caps_for_grants}
use nmerkar.Sandbox.Effective.Grants.{caps_for_grants_lem}
use nmerkar.Pkg.Grant.{UseSpec, names_of, compute_grant}
use nmerkar.Pkg.Grant.Laws.{compute_grant_iff}

-- The capabilities a package's translation units are parsed under.
abbrev pub PackageCaps : FileSystem → List Text → Text → Caps → Type 0
PackageCaps fs grant base_dir c = caps_for_grants fs grant base_dir ≡ Outcome.ok c

module _ (fs : FileSystem) (spec : UseSpec) (declared : List (Text × Bool)) (program_caps : Caps)
    (baked : Option SandboxFile) (grant : List Text) (base_dir : Text) (c : Caps)
    (given : compute_grant spec declared program_caps baked ≡ ok grant)
    (gate : PackageCaps fs grant base_dir c) where
  named : (q : Text) → Elem q grant → Elem q cap_names
  named q m = ((compute_grant_iff spec declared program_caps baked grant q given).0 m).is_capability

  package_cap : (name : Text) → Elem name cap_names → cap c name ≡ contains grant name
  package_cap name m =
      let (c', e, exactly) = caps_for_grants_lem fs grant base_dir named in
      let same : c' ≡ c = cc in rw (← same) (exactly name m)

  -- Under the capabilities computed for a package, a capability name is allowed only if the
  -- package declares it and the program itself is allowed it.
  pub package-attenuated :
      (name : Text)
      → Elem name cap_names
      → cap c name ≡ true
      → Elem name (names_of declared) × (cap program_caps name ≡ true)
  package-attenuated name m h =
      let held = (contains_iff grant name).0 (ground (arith, package_cap name m)) in
      let g = (compute_grant_iff spec declared program_caps baked grant name given).0 held in
      (g.declares, g.in_program)
