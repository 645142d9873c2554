-- ===== src/Checker/Depths.antt =====
-- comp/src/parse.rs: static entry depths, their join, and maps from instruction numbers.
use nmerkar.Base.{ℕ, Bool, true, false, List, [], ◌∷◌, Option, none, some, if◌then◌else◌, ◌==◌}
use nmerkar.Base.Int.{ℤ, ◌==ℤ◌}

-- `EDepth`
pub data EDepth : Type 0 where
  unknown : EDepth
  known : ℤ → EDepth
  poison : EDepth

-- `join_depth`
unfoldable pub join_depth : EDepth → EDepth → EDepth
join_depth poison b = poison
join_depth unknown b = b
join_depth (known x) poison = poison
join_depth (known x) unknown = known x
join_depth (known x) (known y) = if x ==ℤ y then known x else poison

-- `a == b`
abbrev pub depth_eq : EDepth → EDepth → Bool
depth_eq unknown unknown = true
depth_eq poison poison = true
depth_eq (known x) (known y) = x ==ℤ y
depth_eq _ _ = false

module _ {V : Type 0} where
  -- `map.get(&pc)`
  unfoldable pub get : ℕ → List (ℕ × V) → Option V
  get pc [] = none
  get pc ((k, v) ∷ m) = if k == pc then some v else get pc m

  -- `map.insert(pc, v)`
  unfoldable pub put : ℕ → V → List (ℕ × V) → List (ℕ × V)
  put pc v [] = (pc, v) ∷ []
  put pc v ((k, w) ∷ m) = if k == pc then (pc, v) ∷ m else (k, w) ∷ put pc v m

abbrev or_unknown : Option EDepth → EDepth
or_unknown none = unknown
or_unknown (some e) = e

-- `*map.entry(pc).or_insert(EDepth::Unknown)`
unfoldable pub depth_at : ℕ → List (ℕ × EDepth) → EDepth
unfolding get
depth_at pc m = or_unknown (get pc m)

-- `st.get(&pc)` where the depth is known
abbrev pub as_known : EDepth → Option ℤ
as_known (known d) = some d
as_known _ = none

-- A depth is joined to the one that stands at an instruction.
unfoldable pub join_at : ℕ → EDepth → List (ℕ × EDepth) → List (ℕ × EDepth)
unfolding depth_at join_depth put
join_at pc e m = put pc (join_depth (depth_at pc m) e) m
