-- ===== src/Checker/Tests.antt =====
-- The tests of comp/src/parse.rs on label arity, as programs after parsing, and the theorems on the
-- walk at such programs.
use nmerkar.Base.{
  lookup, false, ℕ, ◌≤◌, ◌≡◌, refl, List, [], ◌∷◌, Option, none, some, codes, is_whitespace,
}
use nmerkar.Base.Int.{ℤ, pos}
use nmerkar.Base.Results.{ok, err}
use nmerkar.Checker.Program.{
  Ins, atomic_add, push_i, push_addr, simple, call, ret, local_set, local_get, list_start, list_lit,
  local, Parsed,
}
use nmerkar.Checker.Walk.{short_call, short_callback, arity, invokes_at, param_names}
use nmerkar.Checker.Effects.{callback_slots, callback_mnem}
use nmerkar.Checker.Entries.{label_entry_depths, entry_in, check_label_arity}
use nmerkar.Checker.Entries.Cells.{begin, push}
use nmerkar.Checker.Entries.Handed.{by_label, check_label_arity-Handed}

-- `add2: a! b!`, whose body is `ret a b add`, and an entry that calls it behind the given cells
abbrev adds : List Ins → List ℕ → Parsed
adds args lines = record {
  ins =
      local_set (codes "b")
      ∷ local_set (codes "a")
      ∷ local_get (codes "a")
      ∷ local_get (codes "b")
      ∷ simple (codes "op_add")
      ∷ ret
      ∷ args;
  ins_lines = 1 ∷ 1 ∷ 2 ∷ 2 ∷ 2 ∷ 2 ∷ lines;
  labels = (codes "add2", 0) ∷ (codes "entry", 6) ∷ [];
  imports = [];
  exports = [];
  entry_label = some (codes "entry");
  label_params = (0, local (codes "a") ∷ local (codes "b") ∷ []) ∷ [];
  param_pcs = (0, 0) ∷ (1, 1) ∷ [];
}

abbrev satisfied : Parsed
satisfied =
    adds
      (push_i (pos 3) ∷ push_i (pos 4) ∷ call (codes "add2") ∷ simple (codes "op_print") ∷ ret ∷ [])
      (4 ∷ 4 ∷ 4 ∷ 5 ∷ 6 ∷ [])

abbrev starved : Parsed
starved =
    adds (push_i (pos 3) ∷ call (codes "add2") ∷ simple (codes "op_print") ∷ ret ∷ [])
      (4 ∷ 4 ∷ 5 ∷ 6 ∷ [])

accepts_satisfied_call : check_label_arity satisfied ≡ ok tt
unfolding check_label_arity invokes_at callback_slots callback_mnem is_whitespace param_names
accepts_satisfied_call = refl

-- `label_arity_error_fires_with_callee_defined_first`
rejects_starved_call :
    check_label_arity starved
    ≡ err (short_call (some 4) (codes "add2") 2 (codes "a b") (pos 1) (pos 1))
unfolding check_label_arity invokes_at callback_slots callback_mnem is_whitespace param_names
rejects_starved_call = refl

-- `label_arity_rejects_underbound_filter_callback`
rejects_filter_callback :
    check_label_arity record {
      ins =
          list_start
          ∷ push_i (pos 1)
          ∷ list_lit
          ∷ push_addr (codes "big")
          ∷ simple (codes "op_filter")
          ∷ ret
          ∷ push_i (pos 1)
          ∷ ret
          ∷ [];
      ins_lines = 1 ∷ 1 ∷ 1 ∷ 1 ∷ 1 ∷ 2 ∷ 4 ∷ 4 ∷ [];
      labels = (codes "big", 6) ∷ [];
      imports = [];
      exports = [];
      entry_label = none;
      label_params = (6, local (codes "a") ∷ local (codes "b") ∷ []) ∷ [];
      param_pcs = [];
    }
    ≡ err (short_callback (some 1) (codes "big") 2 (codes "a b") (codes "filter") (pos 1) (pos 1))
unfolding check_label_arity invokes_at callback_slots callback_mnem is_whitespace param_names
rejects_filter_callback = refl

abbrev depths : List (ℕ × Option ℤ)
depths = (6, some (pos 0)) ∷ (0, some (pos 2)) ∷ []

depths_known : label_entry_depths satisfied ≡ ok depths
unfolding label_entry_depths invokes_at callback_slots is_whitespace
depths_known = refl

-- `5 'dbl ret`, with `dbl: n!` behind it
abbrev doubled : Parsed
doubled = record {
  ins =
      push_i (pos 5)
      ∷ call (codes "dbl")
      ∷ ret
      ∷ local_set (codes "n")
      ∷ local_get (codes "n")
      ∷ ret
      ∷ [];
  ins_lines = 2 ∷ 2 ∷ 2 ∷ 3 ∷ 4 ∷ 4 ∷ [];
  labels = (codes "entry", 0) ∷ (codes "dbl", 3) ∷ [];
  imports = [];
  exports = [];
  entry_label = some (codes "entry");
  label_params = (3, local (codes "n") ∷ []) ∷ [];
  param_pcs = (3, 0) ∷ [];
}

abbrev doubled_depths : List (ℕ × Option ℤ)
doubled_depths = (3, some (pos 1)) ∷ (0, some (pos 0)) ∷ []

doubled_known : label_entry_depths doubled ≡ ok doubled_depths
unfolding label_entry_depths invokes_at
doubled_known = refl

doubled_passes : check_label_arity doubled ≡ ok tt
unfolding check_label_arity invokes_at
doubled_passes = refl

check_label_arity-Handed_example : arity doubled 3 ≤ 1
unfolding entry_in lookup
check_label_arity-Handed_example =
    check_label_arity-Handed doubled doubled_depths doubled_known doubled_passes 0 0 3 1 refl refl
      (by_label (codes "dbl") (push (push_i (pos 5)) begin refl refl refl) refl refl)

-- `AtomicAdd(x, false)` takes the delta and puts the old value, and the walk counts only the second:
-- a call of a label with two parameters passes with one cell on the stack.
abbrev added : Parsed
added = record {
  ins =
      push_i (pos 5)
      ∷ atomic_add (codes "x") false
      ∷ call (codes "pair")
      ∷ ret
      ∷ local_set (codes "b")
      ∷ local_set (codes "a")
      ∷ ret
      ∷ [];
  ins_lines = 2 ∷ 2 ∷ 2 ∷ 3 ∷ 4 ∷ 4 ∷ 4 ∷ [];
  labels = (codes "entry", 0) ∷ (codes "pair", 4) ∷ [];
  imports = [];
  exports = [];
  entry_label = some (codes "entry");
  label_params = (4, local (codes "a") ∷ local (codes "b") ∷ []) ∷ [];
  param_pcs = (4, 0) ∷ (5, 1) ∷ [];
}

accepts_added : check_label_arity added ≡ ok tt
unfolding check_label_arity invokes_at
accepts_added = refl
