-- ===== src/Sandbox/Tests.antt =====
-- Runs of the sandbox on small inputs, and the theorems of the sandbox at such inputs.
use nmerkar.Base.{
  ◌≡◌, ◌≢◌, refl, inl, inr, true, false, Option, none, some, List, [], ◌∷◌, ◌++◌, map, Text, codes,
  starts_with, lookup, insert, remove, contains, text_eq, Elem, arith, strip_prefix,
}
use nmerkar.Sandbox.Files.{FileSystem, ParentIsShorter}
use nmerkar.Sandbox.Within.{path_within, Walk, existing_ancestor, existing_ancestor-total}
use nmerkar.Sandbox.Pattern.{cap_names, pattern_matches, op_capability}
use nmerkar.Sandbox.Pattern.Meaning.{Matches, pattern_matches_iff}
use nmerkar.Sandbox.Resolve.{Rules, no_rules, denied, allowed, resolve_cap, best_match}
use nmerkar.Sandbox.Resolve.Laws.{DeniedBy, resolve_cap-denied_iff}
use nmerkar.Sandbox.Caps.{
  Caps, unrestricted, cap, module_allowed, apply_rules, apply_caps, add_denied,
}
use nmerkar.Sandbox.Caps.Tighten.{cap-apply_rules}
use nmerkar.Sandbox.Effective.{
  SandboxFile, ok, bake, tighten, finish, effective, caps_for_grants, resolve_root,
}
use nmerkar.Base.Results
use nmerkar.Base.{ℕ, trim_start, trim_end, before_first, words, lines, is_whitespace}
use nmerkar.Sandbox.Ufs.{parse_rules, parse_ufs}
use nmerkar.Sandbox.Ufs.Kept.{values, parse_rules-values}
use nmerkar.Sandbox.Bake.{c_escape}
use nmerkar.Sandbox.Bake.Escape.{read_literal, read_literal-c_escape}
use nmerkar.Sandbox.Effective.Laws.{cap-effective}
use nmerkar.Sandbox.Effective.Modules.{ModulePermitted, module_allowed-effective}
use nmerkar.Sandbox.Effective.Grants.{caps_for_grants_lem}
use nmerkar.Sandbox.Effective.Roots.{RootPermitted, roots-effective}

-- A file system where every path is canonical, `exists` holds of the empty path, and the parent
-- of a path cuts off one character.
abbrev chop : Text → Option Text
chop [] = none
chop (c ∷ p) = some p

abbrev disk : FileSystem
disk = record {
  is_absolute = starts_with (codes "/");
  current_dir = codes "/w";
  temp_dir = codes "/tmp";
  join = λ a b. a ++ codes "/" ++ b;
  canonicalize = λ p. some p;
  path_starts_with = λ p r. starts_with r p;
  exists = λ p. text_eq p [];
  parent = chop;
}

disk-ParentIsShorter : ParentIsShorter disk
disk-ParentIsShorter [] q e = absurd (ground arith)
disk-ParentIsShorter (c ∷ p) q e = ground arith

-- The top-level rules of comp/sandbox.ufs.
abbrev data_rules : Rules
data_rules = record no_rules {
  deny = codes "proc" ∷ codes "ffi.import" ∷ codes "raw.*" ∷ codes "host.argv" ∷ [];
  allow = codes "fs.read" ∷ codes "fs.write" ∷ [];
  workspace = codes "." ∷ [];
}

abbrev data_file : SandboxFile
data_file = record { base = data_rules; policies = []; name = some (codes "data") }

abbrev no_write : SandboxFile
no_write = record {
  base = record no_rules { deny = codes "fs.write" ∷ [] };
  policies = [];
  name = none;
}

-- A file that names no root of its own, and one that gives the root of the disk.
abbrev rootless : SandboxFile
rootless = record { base = no_rules; policies = []; name = none }

abbrev whole_disk : SandboxFile
whole_disk = record {
  base = record no_rules { workspace = codes "/" ∷ [] };
  policies = [];
  name = none;
}

resolves_raw :
    (resolve_cap data_rules (codes "raw.mem") ≡ denied)
    × (resolve_cap data_rules (codes "fs.read") ≡ allowed)
    × (resolve_cap data_rules (codes "ffi.use") ≡ allowed)
unfolding resolve_cap best_match pattern_matches
resolves_raw = (refl, refl, refl)

mmap_is_gated : op_capability (codes "op_mmap") ≡ some (codes "fs.mmap")
unfolding op_capability
mmap_is_gated = refl

pattern_matches_iff_example : Matches (codes "raw.*") (codes "raw.mem") 1
unfolding pattern_matches
pattern_matches_iff_example = (pattern_matches_iff (codes "raw.*") (codes "raw.mem") 1).0 refl

resolve_cap-denied_iff_example : DeniedBy data_rules (codes "raw.mem")
resolve_cap-denied_iff_example =
    (resolve_cap-denied_iff data_rules (codes "raw.mem")).0 resolves_raw.0

cap-apply_rules_example :
    cap (apply_rules disk unrestricted data_rules false) (codes "proc") ≡ false
unfolding cap resolve_cap best_match pattern_matches
cap-apply_rules_example =
    cap-apply_rules disk unrestricted data_rules false (codes "proc") (inr (inr (inl refl)))

existing_ancestor-total_example : existing_ancestor disk 4 (codes "a/b") ≢ Walk.out_of_fuel
existing_ancestor-total_example =
    existing_ancestor-total disk 4 (codes "a/b") disk-ParentIsShorter (omega arith)

abbrev made : Caps
made =
    finish disk (no_write ∷ []) [] (codes "/w") (codes "data") (codes "baked")
      (bake disk data_rules)

made_by :
    effective disk (some (data_file, codes "baked")) none (no_write ∷ []) [] (codes "/w") ≡ ok made
unfolding effective
made_by = refl

abbrev plain : Caps
plain = finish disk [] [] (codes "/w") (codes "data") (codes "baked") (bake disk data_rules)

plain_by : effective disk (some (data_file, codes "baked")) none [] [] (codes "/w") ≡ ok plain
unfolding effective
plain_by = refl

cap-effective_example : cap made (codes "fs.write") ≡ false
unfolding resolve_cap best_match pattern_matches
cap-effective_example =
    cap-effective disk (some (data_file, codes "baked")) none (no_write ∷ []) [] (codes "/w") made
      (codes "fs.write") (inr (inl refl)) made_by

loads_curl : module_allowed made (codes "curl") ≡ true
unfolding finish tighten module_allowed cap apply_rules apply_caps resolve_cap best_match
    pattern_matches lookup contains insert remove add_denied
loads_curl = refl

module_allowed-effective_example :
    (module_allowed plain (codes "curl") ≡ true)
    × ((rf : SandboxFile) → Elem rf (no_write ∷ []) → ModulePermitted rf.base (codes "curl"))
module_allowed-effective_example =
    module_allowed-effective disk (some (data_file, codes "baked")) none (no_write ∷ []) []
      (codes "/w") made plain (codes "curl") made_by plain_by loads_curl

names_given : (q : Text) → Elem q (codes "proc" ∷ []) → Elem q cap_names
names_given q (inl e) = inr (inr (inl e))
names_given q (inr m) = absurd m

caps_for_grants_lem_example :
    (c : Caps) × (caps_for_grants disk (codes "proc" ∷ []) (codes "/w") ≡ ok c)
    × ((name : Text) → Elem name cap_names → cap c name ≡ contains (codes "proc" ∷ []) name)
caps_for_grants_lem_example = caps_for_grants_lem disk (codes "proc" ∷ []) (codes "/w") names_given

-- Two roots are baked; the runtime file and the command line leave the first.
abbrev two_roots : SandboxFile
two_roots = record {
  base = record data_rules { workspace = codes "/w/data" ∷ codes "/srv" ∷ [] };
  policies = [];
  name = some (codes "two");
}

abbrev rooted : SandboxFile
rooted = record {
  base = record no_rules { workspace = codes "/w" ∷ codes "/srv" ∷ [] };
  policies = [];
  name = none;
}

abbrev narrowed : Caps
narrowed =
    finish disk (rooted ∷ []) (codes "/w/d" ∷ []) (codes "/w") (codes "two") (codes "baked")
      (bake disk two_roots.base)

narrowed_by :
    effective disk
      (some (two_roots, codes "baked"))
      none
      (rooted ∷ [])
      (codes "/w/d" ∷ [])
      (codes "/w")
    ≡ ok narrowed
unfolding effective
narrowed_by = refl

one_root_left : narrowed.workspace ≡ some (codes "/w/data" ∷ [])
unfolding path_within starts_with apply_rules existing_ancestor finish tighten
one_root_left = refl

roots-effective_example :
    (roots : List Text) × (narrowed.workspace ≡ some (map (resolve_root disk (codes "/w")) roots))
    × ((r : Text)
        → Elem r roots
        → Elem r (codes "/w/data" ∷ codes "/srv" ∷ [])
          × ((rf : SandboxFile) → Elem rf (rooted ∷ []) → RootPermitted disk r rf.base.workspace)
          × RootPermitted disk r (codes "/w/d" ∷ []))
roots-effective_example =
    roots-effective disk two_roots (codes "baked") (codes "/w/data") (codes "/srv" ∷ [])
      (rooted ∷ []) (codes "/w/d" ∷ []) (codes "/w") narrowed refl narrowed_by

abbrev open_caps : List SandboxFile → Caps
open_caps files =
    finish disk files [] (codes "/w") (codes "default") (codes "baked") (bake disk no_rules)

default_roots_hold : (open_caps []).workspace ≡ some (codes "/w" ∷ codes "/tmp/nk" ∷ [])
unfolding starts_with strip_prefix cap apply_rules apply_caps resolve_cap best_match pattern_matches
    lookup remove finish tighten
default_roots_hold = refl

-- One runtime file with a root puts it in the place of the default roots, wide as it is.
default_roots_gone : (open_caps (whole_disk ∷ [])).workspace ≡ some (codes "/" ∷ [])
unfolding starts_with strip_prefix cap apply_rules apply_caps resolve_cap best_match pattern_matches
    lookup remove finish tighten
default_roots_gone = refl

-- `deny proc ; no processes` and `allow "fs.*"`.
abbrev rule_file : List (ℕ × Text)
rule_file =
    (1, codes "deny proc ; no processes") ∷ (2, []) ∷ (3, codes " allow \"fs.*\" ffi.use") ∷ []

abbrev file_rules : Rules
file_rules = record {
  allow = codes "fs.*" ∷ codes "ffi.use" ∷ [];
  deny = codes "proc" ∷ [];
  workspace = [];
  allow_module = [];
  deny_module = [];
}

rule_file_parses : parse_rules rule_file ≡ Results.ok (file_rules, none)
unfolding parse_rules text_eq trim_start trim_end before_first words is_whitespace
rule_file_parses = refl

parse_rules-values_example :
    (file_rules.deny ≡ values (codes "deny") rule_file)
    × (file_rules.allow ≡ values (codes "allow") rule_file)
parse_rules-values_example = parse_rules-values rule_file file_rules none rule_file_parses

-- A quote, a backslash and a line end.
read_literal-c_escape_example :
    read_literal (c_escape (34 ∷ 92 ∷ 10 ∷ []) ++ (b'"' ∷ codes ";"))
    ≡ some (34 ∷ 92 ∷ 10 ∷ [], codes ";")
read_literal-c_escape_example = read_literal-c_escape (34 ∷ 92 ∷ 10 ∷ []) (codes ";")

-- The `policy_sections` of a file: the base, then a policy.
ufs_file :
    parse_ufs (codes "deny proc\n[policy web]\nallow fs.*\n")
    ≡ Results.ok (record {
      base = record {
        allow = [];
        deny = codes "proc" ∷ [];
        workspace = [];
        allow_module = [];
        deny_module = [];
      };
      policies =
          (
            codes "web",
            record {
              allow = codes "fs.*" ∷ [];
              deny = [];
              workspace = [];
              allow_module = [];
              deny_module = [];
            },
          )
          ∷ [];
      name = none;
    })
unfolding parse_ufs text_eq trim_start trim_end before_first words is_whitespace lines strip_prefix
    insert lookup
ufs_file = refl
