-- ===== src/Sandbox/Bake/Roots.antt =====
-- comp/src/sandbox.rs: what the C text says of the workspace roots.
use nmerkar.Base.{◌≡◌, refl, Option, none, some, List, [], Text, text_eq}
use nmerkar.Sandbox.Caps.{Caps, cap}
use nmerkar.Sandbox.Bake.{c_bake}

abbrev pub with_roots : Option (List Text) → Caps → Caps
with_roots roots c = record {
  caps = c.caps;
  module_allow = c.module_allow;
  module_deny = c.module_deny;
  workspace = roots;
  policy_name = c.policy_name;
  origin = c.origin;
  is_sandboxed = c.is_sandboxed;
}

-- The C text is the same for a workspace without roots, where no path is allowed, and for no
-- workspace, where every path is.
pub c_bake-with_roots :
    (c : Caps) (device : Text) (required : List (Text × List Text))
    → c_bake (with_roots (some []) c) device required ≡ c_bake (with_roots none c) device required
unfolding c_bake cap text_eq
c_bake-with_roots c device required = refl
