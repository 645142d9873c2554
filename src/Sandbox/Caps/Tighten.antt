-- ===== src/Sandbox/Caps/Tighten.antt =====
-- `apply_rules` against the queries `cap` and `module_allowed`.
use nmerkar.Base.{
  ◌≡◌, ◌⊎◌, refl, Bool, true, false, not, ◌&&◌, ◌||◌, Option, none, some, List, [], ◌∷◌, ◌++◌, Text,
  codes, text_eq, text_eq_iff, contains, contains_iff, contains-nil, contains-cons, contains-append,
  contains-keep, lookup, arith, Bool-cases, inl, inr, Elem,
}
use nmerkar.Sandbox.Files.{FileSystem}
use nmerkar.Sandbox.Pattern.{cap_names}
use nmerkar.Sandbox.Resolve.{Rules}
use nmerkar.Sandbox.Caps.{
  Caps, permits, cap, module_allowed, intersect_modules, listed, add_denied, apply_rules,
}
use nmerkar.Sandbox.Caps.Laws.{resolves, permits-apply_caps, mmap_unlisted}

named-ne-mmap : (name : Text) → Elem name cap_names → text_eq name (codes "fs.mmap") ≡ false
named-ne-mmap name m = elim (Bool-cases (text_eq name (codes "fs.mmap"))) [
  | inl e ↦
      let same = (text_eq_iff name (codes "fs.mmap")).0 e in
      absurd (ground (arith, rw same at ((contains_iff cap_names name).1 m), mmap_unlisted))
  | inr e ↦ e
]

-- Under a layer of rules a listed capability is allowed exactly when the rules resolve it as
-- allowed and, if the layer may only tighten, it was allowed before.
pub cap-apply_rules :
    (fs : FileSystem) (c : Caps) (rules : Rules) (tighten_only : Bool) (name : Text)
    → Elem name cap_names
    → cap (apply_rules fs c rules tighten_only) name
      ≡ (resolves rules name && (not tighten_only || cap c name))
unfolding cap
cap-apply_rules fs c rules tighten_only name m =
    rw
      (
        named-ne-mmap name m,
        permits-apply_caps fs c rules tighten_only name,
        (contains_iff cap_names name).1 m,
      )
      refl

permits-tighten :
    (fs : FileSystem) (c : Caps) (rules : Rules) (name : Text)
    → permits (lookup name (apply_rules fs c rules true).caps) ≡ true
    → permits (lookup name c.caps) ≡ true
permits-tighten fs c rules name h = ground (arith, permits-apply_caps fs c rules true name)

-- A layer that may only tighten grants nothing, `fs.mmap` and unlisted names included.
pub cap-tighten :
    (fs : FileSystem) (c : Caps) (rules : Rules) (name : Text)
    → cap (apply_rules fs c rules true) name ≡ true
    → cap c name ≡ true
unfolding cap
cap-tighten fs c rules name h = ground (
  arith,
  permits-tighten fs c rules name,
  permits-tighten fs c rules (codes "fs.read"),
  permits-tighten fs c rules (codes "fs.write"),
)

contains-add_denied :
    (deny ms : List Text) (t : Text)
    → contains (add_denied deny ms) t ≡ (contains deny t || contains ms t)
unfolding add_denied
contains-add_denied deny [] t = ground (arith, contains-nil t)
contains-add_denied deny (m ∷ ms) t = elim (Bool-cases (contains deny m)) [
  | inl old ↦
      rw old (ground (arith, contains-add_denied deny ms t, contains-cons m ms t, text_eq_iff m t))
  | inr new ↦ rw new (
      ground (
        arith,
        contains-add_denied (deny ++ m ∷ []) ms t,
        contains-append deny (m ∷ []) t,
        contains-cons m [] t,
        contains-nil t,
        contains-cons m ms t,
      ))
]

listed-intersect :
    (prev : Option (List Text)) (new : List Text) (t : Text)
    → listed (intersect_modules prev new) t ≡ true
    → (listed prev t ≡ true) × ((new ≡ []) ⊎ (contains new t ≡ true))
listed-intersect prev [] t h = (h, inl refl)
listed-intersect none (a ∷ xs) t h = (refl, inr h)
listed-intersect (some prev) (a ∷ xs) t h = ground (arith, contains-keep (contains (a ∷ xs)) prev t)

-- What loads a module after a layer: the module could be loaded before, the layer does not deny
-- it, and the layer has no allowlist or lists it. (This holds of a tightening layer; a baked one
-- may allow `ffi.use` anew.)
pub module_allowed-tighten :
    (fs : FileSystem) (c : Caps) (rules : Rules) (name : Text)
    → module_allowed (apply_rules fs c rules true) name ≡ true
    → (module_allowed c name ≡ true)
      × (contains rules.deny_module name ≡ false)
      × ((rules.allow_module ≡ []) ⊎ (contains rules.allow_module name ≡ true))
unfolding module_allowed
module_allowed-tighten fs c rules name h =
    let denies = contains-add_denied c.module_deny rules.deny_module name in
    let lists = listed-intersect c.module_allow rules.allow_module name in
    let gate = cap-tighten fs c rules (codes "ffi.use") in
    unfold apply_rules in ground (arith, denies, lists, gate)
