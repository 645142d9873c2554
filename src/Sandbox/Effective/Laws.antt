-- ===== src/Sandbox/Effective/Laws.antt =====
-- `effective` and `caps_for_grants`: what the layers together allow.
use nmerkar.Base.{
  ◌≡◌, refl, ◌∙◌, Bool, true, false, ◌&&◌, Option, none, some, List, [], ◌∷◌, Text, codes, lookup,
  arith, Option-cases, inl, inr, Elem,
}
use nmerkar.Sandbox.Files.{FileSystem}
use nmerkar.Sandbox.Pattern.{cap_names}
use nmerkar.Sandbox.Resolve.{Rules}
use nmerkar.Sandbox.Caps.{Caps, cap, unrestricted, module_allowed, apply_rules}
use nmerkar.Sandbox.Caps.Laws.{resolves}
use nmerkar.Sandbox.Caps.Tighten.{cap-apply_rules}
use nmerkar.Sandbox.Effective.{name_or_default, SandboxFile, ok, bake, tighten, finish, effective}

-- No runtime file denies `name`.
abbrev pub none_denies : List SandboxFile → Text → Bool
none_denies [] name = true
none_denies (rf ∷ rfs) name = resolves rf.base name && none_denies rfs name

module _ (fs : FileSystem) where
  -- Behind the runtime files nothing of `effective` touches the capabilities.
  cap-finish :
      (runtime : List SandboxFile) (extra : List Text) (base_dir policy origin : Text) (c : Caps)
      (name : Text)
      → cap (finish fs runtime extra base_dir policy origin c) name
        ≡ cap (tighten fs runtime c) name
  unfolding finish cap
  cap-finish runtime extra base_dir policy origin c name = ground arith

  pub module_allowed-finish :
      (runtime : List SandboxFile) (extra : List Text) (base_dir policy origin : Text) (c : Caps)
      (name : Text)
      → module_allowed (finish fs runtime extra base_dir policy origin c) name
        ≡ module_allowed (tighten fs runtime c) name
  unfolding finish cap module_allowed
  module_allowed-finish runtime extra base_dir policy origin c name = ground arith

  cap-tighten_files :
      (runtime : List SandboxFile) (c : Caps) (name : Text)
      → Elem name cap_names
      → cap (tighten fs runtime c) name ≡ (cap c name && none_denies runtime name)
  unfolding tighten
  cap-tighten_files [] c name m = ground arith
  cap-tighten_files (rf ∷ rfs) c name m = ground (
    arith,
    cap-tighten_files rfs (apply_rules fs c rf.base true) name m,
    cap-apply_rules fs c rf.base true name m,
  )

-- The baked layer's say on a capability: the selected policy replaces the base rules, and a
-- build with no sandbox file allows everything.
abbrev pub baked_allows : Option (SandboxFile × Text) → Option Text → Text → Bool
baked_allows none _ name = true
baked_allows (some (sf, _)) none name = resolves sf.base name
baked_allows (some (sf, _)) (some p) name = elim (lookup p sf.policies) [
  | none ↦ false
  | some rules ↦ resolves rules name
]

module _ (fs : FileSystem) where
  cap-bake :
      (rules : Rules) (name : Text)
      → Elem name cap_names
      → cap (bake fs rules) name ≡ resolves rules name
  cap-bake rules name m = ground (
    arith,
    cap-sandboxed (apply_rules fs unrestricted rules false) name,
    cap-apply_rules fs unrestricted rules false name m,
  )
    where
      cap-sandboxed : (c : Caps) (n : Text) → cap (record c { is_sandboxed = true }) n ≡ cap c n
      cap-sandboxed c n = unfold cap in refl

  cap-unrestricted : (name : Text) → cap unrestricted name ≡ true
  unfolding cap lookup
  cap-unrestricted name = ground arith

  cap-layers :
      (runtime : List SandboxFile) (extra : List Text) (base_dir policy origin : Text) (c : Caps)
      (name : Text)
      → Elem name cap_names
      → cap (finish fs runtime extra base_dir policy origin c) name
        ≡ (cap c name && none_denies runtime name)
  cap-layers runtime extra base_dir policy origin c name m =
      cap-finish fs runtime extra base_dir policy origin c name
      ∙ cap-tighten_files fs runtime c name m

  -- Where `effective` gives a capability set, that set allows a listed capability exactly when the
  -- baked layer does and no runtime file denies it.
  pub cap-effective :
      (baked : Option (SandboxFile × Text)) (selected : Option Text) (runtime : List SandboxFile)
      (extra : List Text) (base_dir : Text) (c : Caps) (name : Text)
      → Elem name cap_names
      → effective fs baked selected runtime extra base_dir ≡ ok c
      → cap c name ≡ (baked_allows baked selected name && none_denies runtime name)
  unfolding effective
  cap-effective none none runtime extra base_dir c name m h = ground (
    arith,
    cap-layers runtime extra base_dir (codes "none") (codes "unrestricted build") unrestricted name
        m,
    cap-unrestricted name,
  )
  cap-effective none (some p) runtime extra base_dir c name m h = cc
  cap-effective (some (sf, label)) none runtime extra base_dir c name m h = ground (
    arith,
    cap-layers runtime extra base_dir (name_or_default sf.name) label (bake fs sf.base) name m,
    cap-bake sf.base name m,
  )
  cap-effective (some (sf, label)) (some p) runtime extra base_dir c name m h =
      elim (Option-cases (lookup p sf.policies)) [
        | inl e ↦ absurd (ground (arith, e))
        | inr (rules, e) ↦ ground (
          arith,
          e,
          cap-layers runtime extra base_dir p label (bake fs rules) name m,
          cap-bake rules name m,
        )
      ]
