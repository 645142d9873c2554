-- ===== src/Checker/Program.antt =====
-- comp/src/ast.rs: the instructions that the parser gives, with the parts of `Parsed` that the
-- checks of comp/src/parse.rs read.
use nmerkar.Base.{ℕ, List, Option, Text, Bool}
use nmerkar.Base.Int.{ℤ}

-- `Import`
pub record Import : Type 0 where
  pub name : Text
  pub params : List Text
  pub ret : Text

-- `Param`
pub data Param : Type 0 where
  local : Text → Param
  global : Text → Param
  discard : Param

-- `WeaveMeta`
pub record WeaveMeta : Type 0 where
  pub name : Text
  pub pc : ℕ
  pub inputs : List ℕ
  pub count : ℤ

-- `Ins`; a floating-point number stands as its 64 bits.
pub data Ins : Type 0 where
  push_i : ℤ → Ins
  push_f push_s : ℕ → Ins
  push_addr : Text → Ins
  simple : Text → Ins
  for_loop : Ins
  call : Text → Ins
  call_ext : ℕ → Ins
  ret : Ins
  set_v get_v inc_local add_local inc_global add_global : Text → Ins
  atomic_add : Text → Bool → Ins
  nop strict loose : Ins
  local_set local_get : Text → Ins
  local_set_i local_get_i : ℕ → Ins
  extern : Text → Ins
  send : Ins
  weave : List WeaveMeta → Ins
  sys : ℕ → Ins
  flush list_start dict_start list_lit dict_lit : Ins
  if_true if_else while_loop break_out cont : Ins
  goto : Text → Ins

-- `Parsed`, with a `HashMap` as an association list.
pub record Parsed : Type 0 where
  pub ins : List Ins
  pub ins_lines : List ℕ
  pub labels : List (Text × ℕ)
  pub imports : List Import
  pub exports : List (Text × Text)
  pub entry_label : Option Text
  pub label_params : List (ℕ × List Param)
  pub param_pcs : List (ℕ × ℕ)
