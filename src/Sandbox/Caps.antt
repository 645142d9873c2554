-- ===== src/Sandbox/Caps.antt =====
-- comp/src/sandbox.rs: `Caps`, its queries, and `apply_rules`.
pub mod Laws
pub mod Tighten
use nmerkar.Base.{
  ℕ, Bool, true, false, not, ◌&&◌, Option, none, some, List, [], ◌∷◌, ◌++◌, Text, codes, text_eq,
  contains, lookup, insert, remove, any, keep, if◌then◌else◌,
}
use nmerkar.Sandbox.Files.{FileSystem}
use nmerkar.Sandbox.Pattern.{cap_names}
use nmerkar.Sandbox.Resolve.{Tri, allowed, denied, Rules, resolve_cap}
use nmerkar.Sandbox.Within.{path_within}

pub record Caps : Type 0 where
  pub caps : List (Text × Tri)
  pub module_allow : Option (List Text)
  pub module_deny : List Text
  pub workspace : Option (List Text)
  pub policy_name : Text
  pub origin : Text
  pub is_sandboxed : Bool

-- `Caps::unrestricted`
abbrev pub unrestricted : Caps
unrestricted = record {
  caps = [];
  module_allow = none;
  module_deny = [];
  workspace = none;
  policy_name = codes "none";
  origin = codes "unrestricted build";
  is_sandboxed = false;
}

-- `matches!(entry, None | Some(Tri::Allowed))`
abbrev pub permits : Option Tri → Bool
permits none = true
permits (some allowed) = true
permits (some denied) = false

-- `Caps::cap`: `fs.mmap` needs both halves of `fs`, neither of which is `fs.mmap` again.
unfoldable pub cap : Caps → Text → Bool
cap c name =
    if text_eq name (codes "fs.mmap")
    then permits (lookup (codes "fs.read") c.caps) && permits (lookup (codes "fs.write") c.caps)
    else permits (lookup name c.caps)

abbrev is_some : Option (List Text) → Bool
is_some none = false
is_some (some _) = true

-- `Caps::cap_i64`, as the Boolean behind the 0 or 1
unfoldable pub cap_i64 : Caps → Text → Bool
cap_i64 c name =
    if text_eq name (codes "fs.workspace")
    then is_some c.workspace
    else if text_eq name (codes "compute")
    then true
    else cap c name

abbrev pub listed : Option (List Text) → Text → Bool
listed none name = true
listed (some list) name = contains list name

-- `Caps::module_allowed`
unfoldable pub module_allowed : Caps → Text → Bool
module_allowed c name =
    cap c (codes "ffi.use") && not (contains c.module_deny name) && listed c.module_allow name

-- One round of the loop over `CAP_NAMES` in `apply_rules`.
apply_cap : Rules → Bool → List (Text × Tri) → Text → List (Text × Tri)
apply_cap rules tighten_only m c = elim (resolve_cap rules c) [
  | denied ↦ insert c denied m
  | allowed ↦ if tighten_only then m else remove c m
]

unfoldable pub apply_caps : Rules → Bool → List Text → List (Text × Tri) → List (Text × Tri)
unfolding apply_cap
apply_caps rules tighten_only [] m = m
apply_caps rules tighten_only (c ∷ cs) m =
    apply_caps rules tighten_only cs (apply_cap rules tighten_only m c)

-- The module allowlists of the layers intersect; a layer with no `allow-module` changes nothing.
abbrev pub intersect_modules : Option (List Text) → List Text → Option (List Text)
intersect_modules prev [] = prev
intersect_modules none (a ∷ as') = some (a ∷ as')
intersect_modules (some prev) (a ∷ as') = some (keep (contains (a ∷ as')) prev)

unfoldable pub add_denied : List Text → List Text → List Text
add_denied deny [] = deny
add_denied deny (m ∷ ms) = add_denied (if contains deny m then deny else deny ++ m ∷ []) ms

-- `prev.filter(|p| new_roots.iter().any(|n| path_within(p, n)))`; no new roots is "anywhere".
abbrev pub intersect_roots : FileSystem → Option (List Text) → List Text → Option (List Text)
intersect_roots fs prev [] = prev
intersect_roots fs none (n ∷ ns) = some (n ∷ ns)
intersect_roots fs (some prev) (n ∷ ns) = some (keep (λ p. any (path_within fs p) (n ∷ ns)) prev)

-- `Caps::apply_rules`
unfoldable pub apply_rules : FileSystem → Caps → Rules → Bool → Caps
apply_rules fs c rules tighten_only = record c {
  caps = apply_caps rules tighten_only cap_names c.caps;
  module_allow = intersect_modules c.module_allow rules.allow_module;
  module_deny = add_denied c.module_deny rules.deny_module;
  workspace = intersect_roots fs c.workspace rules.workspace;
}
