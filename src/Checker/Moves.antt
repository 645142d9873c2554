-- ===== src/Checker/Moves.antt =====
-- comp/src/parse.rs: what each instruction does to the walk's frame, and the walk.
use nmerkar.Base.{
  ℕ, ◌+◌, ◌-◌, Bool, true, false, ◌||◌, List, [], ◌∷◌, ◌++◌, any, length, drop, replicate,
  get_elem?, Option, none, some, Text, codes, text_eq, lookup, if◌then◌else◌,
}
use nmerkar.Base.Int.{ℤ, pos, negsuc, ◌+ℤ◌, ◌-ℤ◌, ◌==ℤ◌}
use nmerkar.Base.Results.{Result, ok, err}
use nmerkar.Checker.Program.{
  Import, Ins, push_i, push_f, push_s, push_addr, simple, for_loop, call, call_ext, ret, set_v,
  get_v, inc_local, add_local, inc_global, add_global, atomic_add, nop, strict, loose, local_set,
  local_get, local_set_i, local_get_i, extern, send, weave, sys, flush, list_start, dict_start,
  list_lit, dict_lit, if_true, if_else, while_loop, break_out, cont, goto, Parsed,
}
use nmerkar.Checker.Effects.{helper_effect, callback_slots}
use nmerkar.Checker.Walk.{Frame, ArityError, no_import, arity, is_param}

-- `depth.map(|d| d - pops + pushes)`
unfoldable pub shifted : ℕ → ℕ → Option ℤ → Option ℤ
unfolding ◌+ℤ◌ ◌-ℤ◌
shifted pops pushes none = none
shifted pops pushes (some d) = some (d -ℤ pos pops +ℤ pos pushes)

-- Cells are taken and others put whose values are not known.
abbrev swapped : ℕ → ℕ → List (Option Text) → List (Option Text)
swapped pops pushes shadow = replicate pushes none ++ drop pops shadow

abbrev moved : ℕ → ℕ → Frame → Frame
moved pops pushes f = record f {
  depth = shifted pops pushes f.depth;
  shadow = swapped pops pushes f.shadow;
}

-- `depth = None; shadow.clear()`
abbrev lost : Frame → Frame
lost f = record f { depth = none; shadow = [] }

abbrev by_effect : Option (ℕ × ℕ) → Frame → Frame
by_effect none f = lost f
by_effect (some (pops, pushes)) f = moved pops pushes f

-- An operation that calls no label back loses its cells where the depth is not known.
abbrev if_known : Option ℤ → Option (ℕ × ℕ) → Frame → Frame
if_known none eff f = lost f
if_known (some d) eff f = by_effect eff f

abbrev simple_move : Option (ℕ × List (ℕ × ℤ)) → Text → Frame → Frame
simple_move (some _) h f = by_effect (helper_effect h) f
simple_move none h f = if_known f.depth (helper_effect h) f

abbrev call_known : ℕ → Option ℤ → Frame → Frame
call_known n none f = f
call_known n (some d) f = moved n 1 f

abbrev call_move : Parsed → Option ℕ → Frame → Frame
call_move p none f = lost f
call_move p (some pc) f = call_known (arity p pc) f.depth f

abbrev is_variadic : Import → Bool
unfolding text_eq
is_variadic im = any (λ x. text_eq x (codes "...")) im.params || text_eq im.ret (codes "...")

abbrev extern_move : ℕ → Option Import → Frame → Result ArityError Frame
unfolding text_eq
extern_move k none f = err (no_import k)
extern_move k (some im) f =
    if is_variadic im
    then ok (lost f)
    else ok (moved (length im.params) (if text_eq im.ret (codes "void") then 0 else 1) f)

abbrev mark_of : Option ℤ → ℕ → ℤ × ℕ
mark_of none n = (negsuc 0, 0)
mark_of (some d) n = (d, n)

abbrev open_literal : Frame → Frame
open_literal f = record f { list_marks = mark_of f.depth (length f.shadow) ∷ f.list_marks }

abbrev restored : ℤ → ℕ → Frame → Frame
unfolding ◌+ℤ◌
restored m n f =
    if m ==ℤ negsuc 0
    then lost f
    else record f { depth = some (m +ℤ pos 1); shadow = none ∷ drop (length f.shadow - n) f.shadow }

abbrev close_literal : List (ℤ × ℕ) → Frame → Frame
close_literal [] f = f
close_literal ((m, n) ∷ marks) f = restored m n (record f { list_marks = marks })

-- A variable is read or written with this many cells more, or a parameter's cell is taken.
abbrev variable_move : Bool → ℕ → Frame → Frame
variable_move true net f = moved 1 0 f
variable_move false net f = moved 0 net f

-- The frame behind an instruction
unfoldable pub move : Parsed → ℕ → Ins → Frame → Result ArityError Frame
unfolding helper_effect lookup shifted extern_move restored
move p i (push_i _) f = ok (moved 0 1 f)
move p i (push_f _) f = ok (moved 0 1 f)
move p i (push_s _) f = ok (moved 0 1 f)
move p i (push_addr t) f = ok (record f { depth = shifted 0 1 f.depth; shadow = some t ∷ f.shadow })
move p i (simple h) f =
    ok (if is_param p i then moved 1 0 f else simple_move (callback_slots h) h f)
move p i (call l) f = ok (call_move p (lookup l p.labels) f)
move p i (call_ext k) f = extern_move k (get_elem? p.imports k) f
move p i for_loop f = ok (moved 2 0 f)
move p i while_loop f = ok (moved 2 0 f)
move p i if_true f = ok (moved 2 0 f)
move p i if_else f = ok (moved 3 0 f)
move p i (sys n) f = ok (moved (n + 1) 1 f)
move p i send f = ok (moved 2 0 f)
move p i list_start f = ok (open_literal f)
move p i dict_start f = ok (open_literal f)
move p i list_lit f = ok (close_literal f.list_marks f)
move p i dict_lit f = ok (close_literal f.list_marks f)
move p i strict f = ok f
move p i loose f = ok f
move p i ret f = ok (lost f)
move p i break_out f = ok (lost f)
move p i cont f = ok (lost f)
move p i (weave _) f = ok (lost f)
move p i (extern _) f = ok (lost f)
move p i flush f = ok (lost f)
move p i (goto _) f = ok (lost f)
move p i (set_v _) f = ok (variable_move (is_param p i) 0 f)
move p i (local_set _) f = ok (variable_move (is_param p i) 0 f)
move p i (local_set_i _) f = ok (variable_move (is_param p i) 0 f)
move p i (get_v _) f = ok (variable_move (is_param p i) 1 f)
move p i (local_get _) f = ok (variable_move (is_param p i) 1 f)
move p i (local_get_i _) f = ok (variable_move (is_param p i) 1 f)
move p i (atomic_add _ _) f = ok (variable_move (is_param p i) 1 f)
move p i nop f = ok (variable_move (is_param p i) 1 f)
move p i (inc_local _) f = ok (variable_move (is_param p i) 1 f)
move p i (add_local _) f = ok (variable_move (is_param p i) 1 f)
move p i (inc_global _) f = ok (variable_move (is_param p i) 1 f)
move p i (add_global _) f = ok (variable_move (is_param p i) 1 f)
