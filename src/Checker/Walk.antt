-- ===== src/Checker/Walk.antt =====
-- comp/src/parse.rs: the walk over all bodies that keeps the static depth of the stack.
pub mod Slots
use nmerkar.Base.{
  ℕ, ◌-◌, min, Bool, List, [], ◌∷◌, ◌++◌, map, any, length, get_elem?, Option, none, some, Text,
  codes, lookup, if◌then◌else◌, ◌==◌,
}
use nmerkar.Base.Int.{ℤ, pos, ◌+ℤ◌, ◌-ℤ◌, lt_ℤ}
use nmerkar.Checker.Program.{
  Param, local, global, discard, Ins, simple, for_loop, call, if_true, if_else, while_loop, goto,
  Parsed,
}
use nmerkar.Checker.Effects.{callback_slots, callback_mnem}
use nmerkar.Checker.Depths.{get}

-- The locals of the walk. The top of the stack stands first in `shadow`, which keeps the labels
-- whose address was pushed; the last literal that was opened stands first in `list_marks`.
pub record Frame : Type 0 where
  pub depth : Option ℤ
  pub shadow : List (Option Text)
  pub list_marks : List (ℤ × ℕ)

-- The exits of the walk by `user_err!`, and the panic of an index out of bounds.
pub data ArityError : Type 0 where
  short_call : Option ℕ → Text → ℕ → Text → ℤ → ℤ → ArityError
  short_callback : Option ℕ → Text → ℕ → Text → Text → ℤ → ℤ → ArityError
  no_import : ℕ → ArityError

-- What hands control to a label: a call, an operation that calls the label back, or a jump, which no
-- check looks at.
pub data How : Type 0 where
  by_call : How
  by_callback : Text → How
  by_jump : How

-- A label that is handed control, its first instruction, and the depth it finds.
pub record Invoke : Type 0 where
  pub how : How
  pub label : Text
  pub target : ℕ
  pub entry : ℤ

abbrev params_length : Option (List Param) → ℕ
params_length none = 0
params_length (some ps) = length ps

-- `p.label_params.get(&pc).map(|v| v.len()).unwrap_or(0)`
unfoldable pub arity : Parsed → ℕ → ℕ
unfolding get
arity p pc = params_length (get pc p.label_params)

abbrev param_name : Param → Text
param_name (local n) = n
param_name (global n) = n
param_name discard = codes "_!"

abbrev join_words : List Text → Text
join_words [] = []
join_words (w ∷ []) = w
join_words (w ∷ v ∷ ws) = w ++ (b' ' ∷ join_words (v ∷ ws))

abbrev params_text : Option (List Param) → Text
params_text none = []
params_text (some ps) = join_words (map param_name ps)

-- `param_names`
unfoldable pub param_names : Parsed → ℕ → Text
unfolding get
param_names p pc = params_text (get pc p.label_params)

abbrev found : How → Text → ℤ → Option ℕ → List Invoke
found how label entry none = []
found how label entry (some pc) =
    record { how = how; label = label; target = pc; entry = entry } ∷ []

-- A label by its name, where there is one.
abbrev reach : Parsed → How → Text → ℤ → List Invoke
unfolding lookup
reach p how label entry = found how label entry (lookup label p.labels)

-- `shadow.get(shadow.len().saturating_sub(1 + slot))`, counted from the top.
abbrev cell_at : List (Option Text) → ℕ → Option (Option Text)
cell_at shadow slot = get_elem? shadow (min slot (length shadow - 1))

-- The depth that a slot's body finds: `if pushes < 0 { 0 } else { d - pops + pushes }`
abbrev slot_entry : ℤ → ℕ → ℤ → ℤ
unfolding ◌+ℤ◌ ◌-ℤ◌ lt_ℤ
slot_entry d pops pushes = if lt_ℤ pushes (pos 0) then pos 0 else d -ℤ pos pops +ℤ pushes

abbrev in_cell : Parsed → Text → ℤ → Option (Option Text) → List Invoke
in_cell p what entry (some (some t)) = reach p (by_callback what) t entry
in_cell p what entry _ = []

-- The labels in the slots of an operation, with the depths their bodies find.
unfoldable pub process_slots :
    Parsed → List (Option Text) → ℤ → ℕ → List (ℕ × ℤ) → Text → List Invoke
unfolding lookup ◌+ℤ◌ ◌-ℤ◌ lt_ℤ
process_slots p shadow d pops [] what = []
process_slots p shadow d pops ((slot, pushes) ∷ slots) what =
    in_cell p what (slot_entry d pops pushes) (cell_at shadow slot)
    ++ process_slots p shadow d pops slots what

abbrev callbacks : Parsed → List (Option Text) → ℤ → Text → Option (ℕ × List (ℕ × ℤ)) → List Invoke
callbacks p shadow d h none = []
callbacks p shadow d h (some (pops, slots)) = process_slots p shadow d pops slots (callback_mnem h)

-- `p.param_pcs.contains_key(&i)`
abbrev pub is_param : Parsed → ℕ → Bool
is_param p i = any (λ (k, v). k == i) p.param_pcs

-- The labels that an instruction hands control to at a depth.
unfoldable pub invokes_at : Parsed → ℕ → Ins → List (Option Text) → ℤ → List Invoke
unfolding process_slots lookup
invokes_at p i (simple h) shadow d =
    if is_param p i then [] else callbacks p shadow d h (callback_slots h)
invokes_at p i (call l) shadow d = reach p by_call l d
invokes_at p i for_loop shadow d = process_slots p shadow d 2 ((0, pos 1) ∷ []) (codes "for")
invokes_at p i while_loop shadow d =
    process_slots p shadow d 2 ((0, pos 0) ∷ (1, pos 0) ∷ []) (codes "while")
invokes_at p i if_true shadow d = process_slots p shadow d 2 ((0, pos 0) ∷ []) (codes "if")
invokes_at p i if_else shadow d =
    process_slots p shadow d 3 ((0, pos 0) ∷ (1, pos 0) ∷ []) (codes "if_else")
invokes_at p i (goto l) shadow d = reach p by_jump l d
invokes_at p i _ shadow d = []

abbrev at_known : Option ℤ → (ℤ → List Invoke) → List Invoke
at_known none f = []
at_known (some d) f = f d

unfoldable pub invokes : Parsed → ℕ → Ins → Frame → List Invoke
invokes p i ins f = at_known f.depth (invokes_at p i ins f.shadow)
