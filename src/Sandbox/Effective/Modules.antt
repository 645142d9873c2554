-- ===== src/Sandbox/Effective/Modules.antt =====
-- Runtime files and modules: what may be loaded under them could be loaded without them.
use nmerkar.Base.{
  ◌≡◌, ◌⊎◌, true, false, Option, none, some, List, [], ◌∷◌, Text, codes, contains, lookup, arith,
  inl, inr, Elem, subst,
}
use nmerkar.Sandbox.Files.{FileSystem}
use nmerkar.Sandbox.Resolve.{Rules}
use nmerkar.Sandbox.Caps.{Caps, unrestricted, module_allowed, apply_rules}
use nmerkar.Sandbox.Caps.Tighten.{module_allowed-tighten}
use nmerkar.Sandbox.Effective.{
  SandboxFile, Outcome, ok, bake, tighten, finish, effective, name_or_default,
}
use nmerkar.Sandbox.Effective.Laws.{module_allowed-finish}

-- The file's own say on a module.
abbrev pub ModulePermitted : Rules → Text → Type 0
ModulePermitted rules name =
    (contains rules.deny_module name ≡ false)
    × ((rules.allow_module ≡ []) ⊎ (contains rules.allow_module name ≡ true))

module _ (fs : FileSystem) where
  module_allowed-tighten_files :
      (runtime : List SandboxFile) (c : Caps) (name : Text)
      → module_allowed (tighten fs runtime c) name ≡ true
      → (module_allowed c name ≡ true)
        × ((rf : SandboxFile) → Elem rf runtime → ModulePermitted rf.base name)
  unfolding tighten
  module_allowed-tighten_files [] c name h = (h, λ rf m. absurd m)
  module_allowed-tighten_files (rf ∷ rfs) c name h =
      let (later, others) =
        module_allowed-tighten_files rfs (apply_rules fs c rf.base true) name h in
      let (before, mine, lists) = module_allowed-tighten fs c rf.base name later in
      (
        before,
        λ r m. elim m [
          | inl e ↦ subst (λ (x : SandboxFile). ModulePermitted x.base name) e (mine, lists)
          | inr n ↦ others r n
        ],
      )

  through :
      (runtime : List SandboxFile) (extra : List Text) (base_dir policy origin : Text)
      (start c c0 : Caps) (name : Text)
      → ok (finish fs runtime extra base_dir policy origin start) ≡ ok c
      → ok (finish fs [] [] base_dir policy origin start) ≡ ok c0
      → module_allowed c name ≡ true
      → (module_allowed c0 name ≡ true)
        × ((rf : SandboxFile) → Elem rf runtime → ModulePermitted rf.base name)
  unfolding tighten
  through runtime extra base_dir policy origin start c c0 name e e0 h =
      let full = module_allowed-finish fs runtime extra base_dir policy origin start name in
      let plain = module_allowed-finish fs [] [] base_dir policy origin start name in
      let (before, files) =
        module_allowed-tighten_files runtime start name (ground (arith, full)) in
      (ground (arith, plain, before), files)

  -- A module that may be loaded under runtime files may be loaded without them, and each of
  -- the files permits it: none denies it, and one with an allowlist lists it.
  pub module_allowed-effective :
      (baked : Option (SandboxFile × Text)) (selected : Option Text) (runtime : List SandboxFile)
      (extra : List Text) (base_dir : Text) (c c0 : Caps) (name : Text)
      → effective fs baked selected runtime extra base_dir ≡ ok c
      → effective fs baked selected [] [] base_dir ≡ ok c0
      → module_allowed c name ≡ true
      → (module_allowed c0 name ≡ true)
        × ((rf : SandboxFile) → Elem rf runtime → ModulePermitted rf.base name)
  unfolding effective
  module_allowed-effective none none runtime extra base_dir c c0 name e e0 h =
      through runtime extra base_dir (codes "none") (codes "unrestricted build") unrestricted c c0
        name e e0 h
  module_allowed-effective none (some p) runtime extra base_dir c c0 name e e0 h = absurd cc
  module_allowed-effective (some (sf, label)) none runtime extra base_dir c c0 name e e0 h =
      through runtime extra base_dir (name_or_default sf.name) label (bake fs sf.base) c c0 name e
        e0 h
  module_allowed-effective (some (sf, label)) (some p) runtime extra base_dir c c0 name e e0 h =
      selected_policy (lookup p sf.policies) e e0
    where
      selected_policy :
          (o : Option Rules)
          → elim o [
            | none ↦ Outcome.no_such_policy p
            | some rules ↦ ok (finish fs runtime extra base_dir p label (bake fs rules))
          ]
            ≡ ok c
          → elim o [
            | none ↦ Outcome.no_such_policy p
            | some rules ↦ ok (finish fs [] [] base_dir p label (bake fs rules))
          ]
            ≡ ok c0
          → (module_allowed c0 name ≡ true)
            × ((rf : SandboxFile) → Elem rf runtime → ModulePermitted rf.base name)
      selected_policy none e e0 = absurd cc
      selected_policy (some rules) e e0 =
          through runtime extra base_dir p label (bake fs rules) c c0 name e e0 h
