-- ===== src/Trans/Emit.antt =====
-- trans/src/emit.rs: the state of the emitter, and the words of an expression.
pub mod Words
pub mod Exprs
pub mod Stmts
pub mod Program
pub mod Safe
pub mod CharValues
pub mod Resolves
pub mod Counts
pub mod Kept
use nmerkar.Base.{
  ℕ, zero, suc, ◌+◌, ◌/◌, ◌%◌, Bool, true, false, List, [], ◌∷◌, ◌++◌, Option, none, some, Text,
  codes, if◌then◌else◌, ltb, get_or, lookup,
}
use nmerkar.Base.Decimal.{decimal}
use nmerkar.Base.Results.{Result, ok, err}
use nmerkar.Trans.Token.{Fault, failed_at}
use nmerkar.Trans.Run.{Run, get, modify, pure, ◌>>=◌, ◌>>◌}

-- `FnCtx`; the innermost loop is the first of `loops`.
pub record FnCtx : Type 0 where
  pub is_main : Bool
  pub slots : List (Text × Text)
  pub loops : List (Option Text)

-- `Emitter`
pub record Emitter : Type 0 where
  pub out : Text
  pub hoisted : Text
  pub hoisted_guards : Text
  pub next_label : ℕ
  pub next_slot : ℕ

-- `ListCtx`
pub data ListCtx : Type 0 where
  fn_body label_body : ListCtx

-- `Buf`
pub record Buf : Type 0 where
  pub code : Text
  pub labels : Text

-- `Buf::new`
abbrev pub empty_buf : Buf
empty_buf = record { code = []; labels = [] }

-- `Emitter::new`
abbrev pub new_emitter : Emitter
new_emitter = record { out = []; hoisted = []; hoisted_guards = []; next_label = 0; next_slot = 0 }

-- `buf.code.push_str(t)`
abbrev pub add_code : Text → Buf → Buf
add_code t b = record { code = b.code ++ t; labels = b.labels }

-- `buf.labels.push_str(t)`
abbrev pub add_labels : Text → Buf → Buf
add_labels t b = record { code = b.code; labels = b.labels ++ t }

-- The emitter and the context of the function that it is in.
pub record Env : Type 0 where
  pub emitter : Emitter
  pub ctx : FnCtx

abbrev pub Emit : Type 0 → Type 0
Emit = Run Env

abbrev pub on_emitter : (Emitter → Emitter) → Env → Env
on_emitter f v = record { emitter = f v.emitter; ctx = v.ctx }

abbrev pub on_ctx : (FnCtx → FnCtx) → Env → Env
on_ctx f v = record { emitter = v.emitter; ctx = f v.ctx }

abbrev pub label_taken : Emitter → Emitter
label_taken e = record {
  out = e.out;
  hoisted = e.hoisted;
  hoisted_guards = e.hoisted_guards;
  next_label = e.next_label + 1;
  next_slot = e.next_slot;
}

abbrev pub slot_taken : Emitter → Emitter
slot_taken e = record {
  out = e.out;
  hoisted = e.hoisted;
  hoisted_guards = e.hoisted_guards;
  next_label = e.next_label;
  next_slot = e.next_slot + 1;
}

abbrev pub with_out : Text → Emitter → Emitter
with_out t e = record {
  out = e.out ++ t;
  hoisted = e.hoisted;
  hoisted_guards = e.hoisted_guards;
  next_label = e.next_label;
  next_slot = e.next_slot;
}

abbrev pub with_hoisted : Text → Emitter → Emitter
with_hoisted t e = record {
  out = e.out;
  hoisted = e.hoisted ++ t;
  hoisted_guards = e.hoisted_guards;
  next_label = e.next_label;
  next_slot = e.next_slot;
}

abbrev pub with_guards : Text → Emitter → Emitter
with_guards t e = record {
  out = e.out;
  hoisted = e.hoisted;
  hoisted_guards = e.hoisted_guards ++ t;
  next_label = e.next_label;
  next_slot = e.next_slot;
}

-- `self.hoisted.clear(); self.hoisted_guards.clear();`
abbrev pub clear_hoisted : Emitter → Emitter
clear_hoisted e = record {
  out = e.out;
  hoisted = [];
  hoisted_guards = [];
  next_label = e.next_label;
  next_slot = e.next_slot;
}

-- `Emitter::fresh_label`
unfoldable pub fresh_label : Emit ℕ
fresh_label v = ok (v.emitter.next_label + 1, on_emitter label_taken v)

-- `Emitter::fresh_slot`
unfoldable pub fresh_slot : Emit Text
unfolding decimal
fresh_slot v = ok (codes "v" ++ decimal v.emitter.next_slot, on_emitter slot_taken v)

-- `ctx.loops.push(l)`
abbrev pub push_loop : Option Text → FnCtx → FnCtx
push_loop l c = record { is_main = c.is_main; slots = c.slots; loops = l ∷ c.loops }

abbrev pub outer_loops : List (Option Text) → List (Option Text)
outer_loops [] = []
outer_loops (l ∷ ls) = ls

-- `ctx.loops.pop()`
abbrev pub pop_loop : FnCtx → FnCtx
pop_loop c = record { is_main = c.is_main; slots = c.slots; loops = outer_loops c.loops }

abbrev pub slot_result : Text → ℕ → ℕ → Option Text → Result Fault Text
slot_result name l c none = err (failed_at l c (codes "undefined variable: " ++ name))
slot_result name l c (some slot) = ok slot

-- `Emitter::slot_of`
unfoldable pub slot_of : FnCtx → Text → ℕ → ℕ → Result Fault Text
slot_of ctx name l c = slot_result name l c (lookup name ctx.slots)
