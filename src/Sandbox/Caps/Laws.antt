-- ===== src/Sandbox/Caps/Laws.antt =====
-- `apply_rules`, capability by capability and module by module.
use nmerkar.Base.{
  ◌≡◌, ◌⊎◌, refl, Bool, true, false, not, ◌&&◌, ◌||◌, Option, none, some, List, [], ◌∷◌, Text,
  codes, text_eq, text_eq_iff, contains, lookup, lookup-insert, lookup-remove, if◌then◌else◌, arith,
  inl, inr,
}
use nmerkar.Sandbox.Files.{FileSystem}
use nmerkar.Sandbox.Pattern.{cap_names}
use nmerkar.Sandbox.Resolve.{Tri, allowed, denied, Rules, resolve_cap}
use nmerkar.Sandbox.Caps.{Caps, permits, apply_cap, apply_caps, apply_rules}

-- `resolve_cap(rules, name) == Tri::Allowed`
abbrev pub resolves : Rules → Text → Bool
resolves rules name = elim (resolve_cap rules name) [ allowed ↦ true | denied ↦ false ]

-- What one layer makes of an entry of the map.
abbrev entry : Rules → Bool → Text → Option Tri → Option Tri
entry rules tighten_only name old =
    if resolves rules name then (if tighten_only then old else none) else some denied

Tri-cases : (t : Tri) → (t ≡ allowed) ⊎ (t ≡ denied)
Tri-cases allowed = inl refl
Tri-cases denied = inr refl

lookup-apply_cap :
    (rules : Rules) (tighten_only : Bool) (m : List (Text × Tri)) (c name : Text)
    → lookup name (apply_cap rules tighten_only m c)
      ≡ (if text_eq c name then entry rules tighten_only name (lookup name m) else lookup name m)
unfolding apply_cap
lookup-apply_cap rules tighten_only m c name = elim (Tri-cases (resolve_cap rules c)) [
  | inl e ↦ ground (arith, e, text_eq_iff c name, lookup-remove c name m)
  | inr e ↦ ground (arith, e, text_eq_iff c name, lookup-insert c name denied m)
]

lookup-apply_caps :
    (rules : Rules) (tighten_only : Bool) (cs : List Text) (m : List (Text × Tri)) (name : Text)
    → lookup name (apply_caps rules tighten_only cs m)
      ≡ (if contains cs name then entry rules tighten_only name (lookup name m) else lookup name m)
unfolding apply_caps contains
lookup-apply_caps rules tighten_only [] m name = refl
lookup-apply_caps rules tighten_only (c ∷ cs) m name = ground (
  arith,
  lookup-apply_cap rules tighten_only m c name,
  lookup-apply_caps rules tighten_only cs (apply_cap rules tighten_only m c) name,
)

module _ (fs : FileSystem) (c : Caps) (rules : Rules) where
  pub permits-apply_caps :
      (tighten_only : Bool) (name : Text)
      → permits (lookup name (apply_rules fs c rules tighten_only).caps) ≡ (
          if contains cap_names name
          then resolves rules name && (not tighten_only || permits (lookup name c.caps))
          else permits (lookup name c.caps))
  unfolding apply_rules
  permits-apply_caps tighten_only name = elim (Tri-cases (resolve_cap rules name)) [
    | inl e ↦ ground (arith, e, lookup-apply_caps rules tighten_only cap_names c.caps name)
    | inr e ↦ ground (arith, e, lookup-apply_caps rules tighten_only cap_names c.caps name)
  ]

-- The capability `fs.mmap` is the pair of the `fs` halves; it is none of the listed names.
pub mmap_unlisted : contains cap_names (codes "fs.mmap") ≡ false
unfolding contains text_eq
mmap_unlisted = refl
