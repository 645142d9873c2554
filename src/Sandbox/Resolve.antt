-- ===== src/Sandbox/Resolve.antt =====
-- comp/src/sandbox.rs: `Rules`, `Tri` and `resolve_cap`.
pub mod Laws
use nmerkar.Base.{ℕ, Option, none, some, List, [], ◌∷◌, Text, ltb, if◌then◌else◌}
use nmerkar.Sandbox.Pattern.{pattern_matches}

pub data Tri : Type 0 where
  allowed denied : Tri

pub record Rules : Type 0 where
  pub allow : List Text
  pub deny : List Text
  pub workspace : List Text
  pub allow_module : List Text
  pub deny_module : List Text

-- `Rules::default()`
abbrev pub no_rules : Rules
no_rules = record { allow = []; deny = []; workspace = []; allow_module = []; deny_module = [] }

-- `if best.map_or(true, |b| s > b) { best = Some(s) }`, where the pattern matches at all.
abbrev pub improve : Option ℕ → Option ℕ → Option ℕ
improve best none = best
improve none (some s) = some s
improve (some b) (some s) = if ltb b s then some s else some b

-- One of the two loops of `resolve_cap`.
unfoldable pub best_match : Option ℕ → List Text → Text → Option ℕ
best_match best [] cap = best
best_match best (p ∷ ps) cap = best_match (improve best (pattern_matches p cap)) ps cap

-- The `match` at the end, on the best deny and the best allow.
abbrev pub verdict : Option ℕ → Option ℕ → Tri
verdict none _ = Tri.allowed
verdict (some d) none = Tri.denied
verdict (some d) (some a) = if ltb d a then Tri.allowed else Tri.denied

unfoldable pub resolve_cap : Rules → Text → Tri
resolve_cap rules cap = verdict (best_match none rules.deny cap) (best_match none rules.allow cap)
