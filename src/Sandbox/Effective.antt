-- ===== src/Sandbox/Effective.antt =====
-- comp/src/sandbox.rs: `SandboxFile`, `effective` and `caps_for_grants`.
pub mod Laws
pub mod Modules
pub mod Grants
pub mod Roots
use nmerkar.Base.{
  Bool, true, false, not, ◌&&◌, ◌||◌, Option, none, some, List, [], ◌∷◌, map, Text, codes, lookup,
  if◌then◌else◌,
}
use nmerkar.Sandbox.Files.{FileSystem}
use nmerkar.Sandbox.Resolve.{Rules, no_rules}
use nmerkar.Sandbox.Caps.{Caps, unrestricted, cap, intersect_roots, apply_rules}

pub record SandboxFile : Type 0 where
  pub base : Rules
  pub policies : List (Text × Rules)
  pub name : Option Text

-- The two `user_err!` exits of `effective`.
pub data Outcome : Type 0 where
  ok : Caps → Outcome
  no_such_policy : Text → Outcome
  policy_without_file : Text → Outcome

abbrev pub name_or_default : Option Text → Text
name_or_default none = codes "default"
name_or_default (some n) = n

-- The file `caps_for_grants` makes up: everything denied but the grants.
abbrev pub grants_file : List Text → SandboxFile
grants_file grants = record {
  base = record no_rules { allow = grants; deny = codes "*" ∷ [] };
  policies = [];
  name = some (codes "package-grants");
}

module _ (fs : FileSystem) where
  -- The baked layer: the selected policy replaces the base rules.
  abbrev pub bake : Rules → Caps
  bake rules = record (apply_rules fs unrestricted rules false) { is_sandboxed = true }

  -- The loop over the `--sandbox` files.
  unfoldable pub tighten : List SandboxFile → Caps → Caps
  tighten [] c = c
  tighten (rf ∷ rfs) c = tighten rfs (apply_rules fs c rf.base true)

  abbrev pub default_roots : Text → List Text
  default_roots base_dir = base_dir ∷ fs.join fs.temp_dir (codes "nk") ∷ []

  -- Default roots where `fs` is allowed and none were configured. (Creating `$TMPDIR/nk` is an
  -- effect whose failure the source ignores.)
  abbrev with_default_roots : Text → Caps → Caps
  with_default_roots base_dir c = elim c.workspace [
    | some _ ↦ c
    | none ↦
        if (cap c (codes "fs.read") || cap c (codes "fs.write")) && c.is_sandboxed
        then record c { workspace = some (default_roots base_dir) }
        else c
  ]

  -- A relative root is joined to `base_dir`; a root that exists is made canonical.
  abbrev pub resolve_root : Text → Text → Text
  resolve_root base_dir r =
      let abs : Text = (if fs.is_absolute r then r else fs.join base_dir r) in
      elim (fs.canonicalize abs) [ none ↦ abs | some c ↦ c ]

  abbrev resolve_roots : Text → Option (List Text) → Option (List Text)
  resolve_roots base_dir none = none
  resolve_roots base_dir (some roots) = some (map (resolve_root base_dir) roots)

  -- `effective` behind the baked layer: runtime files, `--workspace` roots, defaults, resolution
  -- and the two labels.
  unfoldable pub finish : List SandboxFile → List Text → Text → Text → Text → Caps → Caps
  finish runtime extra_roots base_dir policy_name origin c =
      let tight = tighten runtime c in
      let rooted = record tight { workspace = intersect_roots fs tight.workspace extra_roots } in
      let full = with_default_roots base_dir rooted in
      record full {
        workspace = resolve_roots base_dir full.workspace;
        policy_name = policy_name;
        origin = origin;
      }

  unfoldable pub effective :
      Option (SandboxFile × Text) → Option Text → List SandboxFile → List Text → Text → Outcome
  effective none none runtime extra base_dir =
      Outcome.ok
        (finish runtime extra base_dir (codes "none") (codes "unrestricted build") unrestricted)
  effective none (some p) runtime extra base_dir = Outcome.policy_without_file p
  effective (some (sf, label)) none runtime extra base_dir =
      Outcome.ok (finish runtime extra base_dir (name_or_default sf.name) label (bake sf.base))
  effective (some (sf, label)) (some p) runtime extra base_dir = elim (lookup p sf.policies) [
    | none ↦ Outcome.no_such_policy p
    | some rules ↦ Outcome.ok (finish runtime extra base_dir p label (bake rules))
  ]

  -- `caps_for_grants`: no `--policy` is given, so the error exits are out of reach.
  unfoldable pub caps_for_grants : List Text → Text → Outcome
  caps_for_grants grants base_dir =
      effective (some (grants_file grants, codes "package use grants")) none [] [] base_dir
