-- ===== src/Pkg/Grant.antt =====
-- comp/src/pkg.rs: the grant algebra of a use site, and `UseSpec` of comp/src/ast.rs.
mod Parts
pub mod Laws
pub mod Attenuation
use nmerkar.Base.{
  ℕ, ◌≡◌, Bool, true, false, not, ◌&&◌, ◌||◌, Option, none, some, List, [], ◌∷◌, ◌++◌, map, Text,
  codes, text_eq, contains, lookup, any, all, keep, starts_with, ends_with, leb, ltb, ◌==◌,
  if◌then◌else◌,
}
use nmerkar.Base.Results.{Result, ok, err, ◌>>=◌, ◌>>◌, require}
use nmerkar.Sandbox.Pattern.{cap_names, pattern_matches}
use nmerkar.Sandbox.Resolve.{Rules}
use nmerkar.Sandbox.Caps.{Caps, cap}
use nmerkar.Sandbox.Caps.Laws.{resolves}
use nmerkar.Sandbox.Effective.{SandboxFile}

pub record UseSpec : Type 0 where
  pub alias : Option Text
  pub source : Text
  pub policy : Option Text
  pub allows : List Text
  pub denies : List Text

-- The four `user_err!` exits of `compute_grant`, with the name each message quotes.
pub data GrantError : Type 0 where
  unknown_capability undeclared unknown_policy starved : Text → GrantError

-- `let rules = baked?.policies.get(name)?`, and the capabilities the rules allow
abbrev pub allowed_in_file : Option SandboxFile → Text → Option (List Text)
allowed_in_file none name = none
allowed_in_file (some sf) name = elim (lookup name sf.policies) [
  | none ↦ none
  | some rules ↦ some (keep (resolves rules) cap_names)
]

-- `policy_allowed_caps`
unfoldable pub policy_allowed_caps : Option SandboxFile → Text → Option (List Text)
policy_allowed_caps baked name =
    if text_eq name (codes "all") then some cap_names else allowed_in_file baked name

abbrev pub is_some : Option ℕ → Bool
is_some none = false
is_some (some _) = true

-- `patterns_cover`
unfoldable pub patterns_cover : List Text → Text → Bool
patterns_cover patterns name = any (λ p. is_some (pattern_matches p name)) patterns

abbrev has_char : ℕ → Text → Bool
has_char ch = any (λ c. c == ch)

abbrev is_cap_char : ℕ → Bool
is_cap_char c = (leb b'a' c && leb c b'z') || (leb b'0' c && leb c b'9') || c == b'.' || c == b'*'

-- `is_cap_token`
unfoldable pub is_cap_token : Text → Bool
unfolding contains starts_with ends_with
is_cap_token s =
    if text_eq s (codes "*") || contains cap_names s
    then true
    else if not (has_char b'.' s) || starts_with (codes ".") s || ends_with (codes ".") s
    then false
    else all is_cap_char s

-- The first loop: every token of both clauses has the shape of a capability.
unfoldable pub check_tokens : List Text → Result GrantError (Unit {0})
check_tokens [] = ok tt
check_tokens (t ∷ ts) = do require (is_cap_token t) (unknown_capability t); check_tokens ts

-- A wildcard, or a declared name.
abbrev pub may_allow : List Text → Text → Bool
may_allow declared_names t = text_eq t (codes "*") || has_char b'*' t || contains declared_names t

-- The second loop: a plain name that is allowed must be declared.
unfoldable pub check_declared : List Text → List Text → Result GrantError (Unit {0})
check_declared declared_names [] = ok tt
check_declared declared_names (t ∷ ts) = do
  require (may_allow declared_names t) (undeclared t)
  check_declared declared_names ts

abbrev pub policy_base : Option SandboxFile → Option Text → Result GrantError (List Text)
policy_base baked none = ok []
policy_base baked (some p) = elim (policy_allowed_caps baked p) [
  | none ↦ err (unknown_policy p)
  | some base ↦ ok base
]

-- The order of `String`: by code points, a prefix first.
unfoldable pub text_leb : Text → Text → Bool
text_leb [] ys = true
text_leb (x ∷ xs) [] = false
text_leb (x ∷ xs) (y ∷ ys) = ltb x y || (x == y && text_leb xs ys)

unfoldable pub insert_sorted : Text → List Text → List Text
insert_sorted t [] = t ∷ []
insert_sorted t (u ∷ us) = if text_leb t u then t ∷ u ∷ us else u ∷ insert_sorted t us

-- `grant.sort()`
unfoldable pub sort : List Text → List Text
sort [] = []
sort (t ∷ ts) = insert_sorted t (sort ts)

abbrev pub granted : UseSpec → List Text → List Text → Caps → Text → Bool
granted spec base declared_names program_caps c =
    ((patterns_cover base c || patterns_cover spec.allows c) && not (patterns_cover spec.denies c))
    && contains declared_names c
    && cap program_caps c

-- The last loop: a required capability survives into the grant.
unfoldable pub check_required : List Text → List (Text × Bool) → Result GrantError (Unit {0})
check_required grant [] = ok tt
check_required grant ((c, required) ∷ ds) = do
  require (not required || contains grant c) (starved c)
  check_required grant ds

abbrev pub names_of : List (Text × Bool) → List Text
names_of = map (λ d. d.0)

-- `compute_grant`
unfoldable pub compute_grant :
    UseSpec → List (Text × Bool) → Caps → Option SandboxFile → Result GrantError (List Text)
compute_grant spec declared program_caps baked = do
  check_tokens (spec.allows ++ spec.denies)
  check_declared (names_of declared) spec.allows
  base ← policy_base baked spec.policy
  let grant = sort (keep (granted spec base (names_of declared) program_caps) cap_names)
  check_required grant declared
  ok grant
