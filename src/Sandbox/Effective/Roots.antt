-- ===== src/Sandbox/Effective/Roots.antt =====
-- comp/src/sandbox.rs: the workspace roots of `effective` where the baked layer configures roots.
use nmerkar.Base.{
  ◌≡◌, ◌⊎◌, refl, Bool, true, none, some, List, [], ◌∷◌, map, Text, arith, inl, inr, Elem,
  Elem-keep, keep, any, subst,
}
use nmerkar.Sandbox.Files.{FileSystem}
use nmerkar.Sandbox.Within.{path_within}
use nmerkar.Sandbox.Caps.{Caps, intersect_roots, apply_rules}
use nmerkar.Sandbox.Effective.{SandboxFile, ok, bake, tighten, finish, effective, resolve_root}

module _ (fs : FileSystem) where
  -- A layer with these roots lets `root` be: it has none, or `root` is within one.
  abbrev pub RootPermitted : Text → List Text → Type 0
  RootPermitted root roots = (roots ≡ []) ⊎ (any (path_within fs root) roots ≡ true)

  intersect_roots-some :
      (prev new : List Text)
      → (roots : List Text) × (intersect_roots fs (some prev) new ≡ some roots)
        × ((r : Text) → Elem r roots → Elem r prev × RootPermitted r new)
  intersect_roots-some prev [] = (prev, refl, λ r m. (m, inl refl))
  intersect_roots-some prev (n ∷ ns) =
      let p : Text → Bool = λ r. any (path_within fs r) (n ∷ ns) in
      (keep p prev, refl, λ r m. let (was, within) = (Elem-keep p r prev).0 m in (was, inr within))

  tighten-roots :
      (runtime : List SandboxFile) (c : Caps) (prev : List Text)
      → c.workspace ≡ some prev
      → (roots : List Text) × ((tighten fs runtime c).workspace ≡ some roots)
        × ((r : Text)
            → Elem r roots
            → Elem r prev
              × ((rf : SandboxFile) → Elem rf runtime → RootPermitted r rf.base.workspace))
  unfolding tighten apply_rules
  tighten-roots [] c prev e = (prev, e, λ r m. (m, λ rf x. absurd x))
  tighten-roots (rf ∷ rfs) c prev e =
      let (mid, f, first) = intersect_roots-some prev rf.base.workspace in
      let (roots, g, rest) = tighten-roots rfs (apply_rules fs c rf.base true) mid (rw e f) in
      (
        roots,
        g,
        λ r m.
            let (in_mid, others) = rest r m in
            let (in_prev, mine) = first r in_mid in
            (
              in_prev,
              λ x mx. elim mx [
                | inl same ↦ subst (λ (y : SandboxFile). RootPermitted r y.base.workspace) same mine
                | inr n ↦ others x n
              ],
            ),
      )

  -- Without `--policy`, where the baked rules configure roots, each effective root is a root that
  -- the baked rules name, resolved against the base directory. The root as it is named, before it
  -- is resolved, is within some root of each runtime file that gives any, and within some root of
  -- the command line, where that gives any.
  pub roots-effective :
      (sf : SandboxFile) (label w : Text) (ws : List Text) (runtime : List SandboxFile)
      (extra : List Text) (base_dir : Text) (c : Caps)
      → sf.base.workspace ≡ w ∷ ws
      → effective fs (some (sf, label)) none runtime extra base_dir ≡ ok c
      → (roots : List Text) × (c.workspace ≡ some (map (resolve_root fs base_dir) roots))
        × ((r : Text)
            → Elem r roots
            → Elem r (w ∷ ws)
              × ((rf : SandboxFile) → Elem rf runtime → RootPermitted r rf.base.workspace)
              × RootPermitted r extra)
  unfolding effective finish
  roots-effective sf label w ws runtime extra base_dir c e h =
      let (mid, f, first) = tighten-roots runtime (bake fs sf.base) (w ∷ ws) baked in
      let (roots, g, last) = intersect_roots-some mid extra in
      (
        roots,
        ground (arith, f, g),
        λ r m.
            let (in_mid, within) = last r m in
            let (in_baked, files) = first r in_mid in (in_baked, files, within),
      )
    where
      baked : (bake fs sf.base).workspace ≡ some (w ∷ ws)
      baked = unfold apply_rules in rw e refl
