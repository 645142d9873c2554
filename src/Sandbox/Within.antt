-- ===== src/Sandbox/Within.antt =====
-- comp/src/sandbox.rs: `path_within`.
use nmerkar.Base.{
  ℕ, zero, suc, ◌<◌, ◌≢◌, Bool, true, false, Option, none, some, Text, length, if◌then◌else◌, arith,
  Bool-cases, Option-cases, inl, inr,
}
use nmerkar.Sandbox.Files.{FileSystem, ParentIsShorter}

-- How the `while !abs.exists()` loop ends: at a path that exists, with no parent left, or (in
-- the model only) without fuel.
pub data Walk : Type 0 where
  found : Text → Walk
  no_parent out_of_fuel : Walk

module _ (fs : FileSystem) where
  unfoldable pub existing_ancestor : ℕ → Text → Walk
  existing_ancestor zero abs = Walk.out_of_fuel
  existing_ancestor (suc fuel) abs = elim (fs.exists abs) [
    | true ↦ Walk.found abs
    | false ↦ elim (fs.parent abs) [ none ↦ Walk.no_parent | some par ↦ existing_ancestor fuel par ]
  ]

  -- `canonicalize().map(|cp| cp.starts_with(&cr)).unwrap_or(false)`
  abbrev pub resolves_under : Text → Text → Bool
  resolves_under abs cr = elim (fs.canonicalize abs) [
    | none ↦ false
    | some cp ↦ fs.path_starts_with cp cr
  ]

  abbrev pub walk_under : Walk → Text → Bool
  walk_under (Walk.found abs) cr = resolves_under abs cr
  walk_under Walk.no_parent cr = false
  walk_under Walk.out_of_fuel cr = false

  -- `std::env::current_dir().join(path)` for a relative path
  abbrev pub absolute : Text → Text
  absolute path = if fs.is_absolute path then path else fs.join fs.current_dir path

  abbrev pub within_canonical : Option Text → Option Text → Text → Bool
  within_canonical (some cp) (some cr) p = fs.path_starts_with cp cr
  within_canonical none (some cr) p = walk_under (existing_ancestor (suc (length p)) p) cr
  within_canonical _ none p = false

  unfoldable pub path_within : Text → Text → Bool
  path_within path root =
      within_canonical (fs.canonicalize (absolute path)) (fs.canonicalize root) (absolute path)

  -- Where the parent of a path is shorter than the path, the search for an existing parent ends
  -- before a fuel that is more than the length of the path.
  pub existing_ancestor-total :
      (fuel : ℕ) (abs : Text)
      → ParentIsShorter fs
      → length abs < fuel
      → existing_ancestor fuel abs ≢ Walk.out_of_fuel
  unfolding existing_ancestor
  existing_ancestor-total zero abs shorter h = elim h [ ]
  existing_ancestor-total (suc fuel) abs shorter h = elim (Bool-cases (fs.exists abs)) [
    | inl here ↦ ground (arith, here)
    | inr missing ↦ elim (Option-cases (fs.parent abs)) [
      | inl top ↦ ground (arith, missing, top)
      | inr (par, e) ↦
          let less : length par < length abs = shorter abs par e in
          ground (arith, missing, e, existing_ancestor-total fuel par shorter (omega arith))
    ]
  ]
