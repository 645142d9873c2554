-- ===== src/Sandbox/Pattern.antt =====
-- comp/src/sandbox.rs: capability names, the capability of a helper, and capability patterns.
pub mod Meaning
use nmerkar.Base.{
  ℕ, ◌≡◌, Bool, true, false, Option, none, some, List, [], ◌∷◌, Text, codes, text_eq, contains,
  strip_prefix, strip_suffix, starts_with, if◌then◌else◌,
}

-- `CAP_NAMES`
abbrev pub cap_names : List Text
cap_names =
    codes "fs.read"
    ∷ codes "fs.write"
    ∷ codes "proc"
    ∷ codes "ffi.use"
    ∷ codes "ffi.import"
    ∷ codes "raw.syscall"
    ∷ codes "raw.mem"
    ∷ codes "host.argv"
    ∷ []

-- `op_capability`: `none` is an ungated operation.
unfoldable pub op_capability : Text → Option Text
unfolding contains
op_capability helper =
    if contains
      (codes "op_slurp"
        ∷ codes "op_feach"
        ∷ codes "op_ffold"
        ∷ codes "op_fsplit"
        ∷ codes "op_fmatch"
        ∷ [])
      helper
    then some (codes "fs.read")
    else if contains (codes "op_mmap" ∷ []) helper
    then some (codes "fs.mmap")
    else if contains (codes "op_spit" ∷ codes "op_femit" ∷ []) helper
    then some (codes "fs.write")
    else if contains (codes "op_sh" ∷ codes "op_shp" ∷ codes "op_exec" ∷ []) helper
    then some (codes "proc")
    else if contains
        (codes "op_malloc"
          ∷ codes "op_free"
          ∷ codes "op_buf"
          ∷ codes "op_bufcopy"
          ∷ codes "op_loadx"
          ∷ codes "op_storex"
          ∷ [])
        helper
    then some (codes "raw.mem")
    else if contains (codes "op_argv" ∷ codes "op_hasargs" ∷ codes "op_argi" ∷ []) helper
    then some (codes "host.argv")
    else none

-- The branch of `pattern_matches` for `prefix.*`: the capability goes on with a dot behind the
-- prefix.
match_under : Text → Text → Option ℕ
unfolding strip_prefix starts_with
match_under prefix cap = elim (strip_prefix prefix cap) [
  | none ↦ none
  | some rest ↦ if starts_with (codes ".") rest then some 1 else none
]

-- `pattern_matches`: 2 for the exact name, 1 for `prefix.*`, 0 for `*`.
unfoldable pub pattern_matches : Text → Text → Option ℕ
unfolding text_eq strip_suffix match_under
pattern_matches pat cap =
    if text_eq pat (codes "*") then some 0 else elim (strip_suffix (codes ".*") pat) [
      | some prefix ↦ match_under prefix cap
      | none ↦ if text_eq pat cap then some 2 else none
    ]
