-- ===== src/Checker/Exits.antt =====
-- comp/src/parse.rs: label bodies end with `ret`, and `break` and `cont` stand in loops.
pub mod Bodies
pub mod Loops
mod Shapes
mod Shown
mod Tests
use nmerkar.Base.{
  ℕ, suc, ◌+◌, ◌-◌, ltb, leb, Bool, true, false, not, ◌&&◌, ◌||◌, List, [], ◌∷◌, ◌++◌, any, length,
  get_elem?, Option, none, some, Text, codes, starts_with, lookup, if◌then◌else◌, ◌==◌,
}
use nmerkar.Base.Results.{Result, ok, err, ◌>>◌}
use nmerkar.Checker.Program.{
  Ins, push_addr, for_loop, while_loop, if_true, if_else, call, weave, WeaveMeta, ret, break_out,
  cont, goto, Parsed,
}

-- The exits by `user_err!`, and the panic of an index out of bounds.
pub data ExitError : Type 0 where
  falls_off : Option ℕ → Text → ExitError
  outside_loop : Option ℕ → Bool → ExitError
  out_of_range : ℕ → ExitError

-- `pcs.sort_by_key(|(_, pc)| *pc)`
unfoldable pub insert_by_pc : Text × ℕ → List (Text × ℕ) → List (Text × ℕ)
insert_by_pc (n, pc) [] = (n, pc) ∷ []
insert_by_pc (n, pc) ((m, q) ∷ rest) =
    if leb pc q then (n, pc) ∷ (m, q) ∷ rest else (m, q) ∷ insert_by_pc (n, pc) rest

unfoldable pub sort_by_pc : List (Text × ℕ) → List (Text × ℕ)
unfolding insert_by_pc
sort_by_pc [] = []
sort_by_pc (l ∷ rest) = insert_by_pc l (sort_by_pc rest)

-- The instructions that never fall through
abbrev pub is_final : Ins → Bool
is_final ret = true
is_final break_out = true
is_final cont = true
is_final (goto _) = true
is_final if_else = true
is_final _ = false

abbrev pub is_skip : Text → Bool
unfolding starts_with
is_skip name = starts_with (codes "__wskip") name

abbrev pub end_of : Parsed → List (Text × ℕ) → ℕ
end_of p [] = length p.ins
end_of p ((m, q) ∷ rest) = q

abbrev last_is_final : Parsed → Text → ℕ → Option Ins → Result ExitError (Unit {0})
last_is_final p name last none = err (out_of_range last)
last_is_final p name last (some ins) =
    if is_final ins then ok tt else err (falls_off (get_elem? p.ins_lines last) name)

-- One label, with the instruction number where its body ends
unfoldable pub body_ends : Parsed → Text → ℕ → ℕ → Result ExitError (Unit {0})
unfolding starts_with
body_ends p name pc end =
    if is_skip name || leb end pc
    then ok tt
    else last_is_final p name (end - 1) (get_elem? p.ins (end - 1))

unfoldable pub bodies_end : Parsed → List (Text × ℕ) → Result ExitError (Unit {0})
unfolding body_ends
bodies_end p [] = ok tt
bodies_end p ((name, pc) ∷ rest) = body_ends p name pc (end_of p rest) >> bodies_end p rest

-- `check_label_bodies_end_with_ret`
unfoldable pub check_label_bodies_end_with_ret : Parsed → Result ExitError (Unit {0})
unfolding bodies_end sort_by_pc
check_label_bodies_end_with_ret p = bodies_end p (sort_by_pc p.labels)

-- `resolve`
abbrev resolve : Parsed → Text → List ℕ
unfolding lookup
resolve p l = elim (lookup l p.labels) [ none ↦ [] | some pc ↦ pc ∷ [] ]

-- A pushed address that the next instruction takes as a body, or the one behind a second address
abbrev feeds_second : Option Ins → Bool
feeds_second (some while_loop) = true
feeds_second (some if_else) = true
feeds_second _ = false

abbrev feeds_cf : Option Ins → Option Ins → Bool
feeds_cf (some if_true) after = true
feeds_cf (some if_else) after = true
feeds_cf (some for_loop) after = true
feeds_cf (some while_loop) after = true
feeds_cf (some (push_addr _)) after = feeds_second after
feeds_cf _ after = false

abbrev weave_pcs : List WeaveMeta → List ℕ
weave_pcs [] = []
weave_pcs (t ∷ ts) = t.pc ∷ weave_pcs ts

-- The entries of functions that an instruction shows
abbrev entry_at : Parsed → ℕ → Ins → List ℕ
unfolding resolve
entry_at p i (call l) = resolve p l
entry_at p i (push_addr l) =
    if feeds_cf (get_elem? p.ins (i + 1)) (get_elem? p.ins (i + 2)) then [] else resolve p l
entry_at p i (weave ts) = weave_pcs ts
entry_at p i _ = []

abbrev pushed_at : Parsed → Option Ins → List ℕ
unfolding resolve
pushed_at p (some (push_addr l)) = resolve p l
pushed_at p _ = []

-- `p.ins[i - k]`, where there are so many instructions in front
abbrev before : Parsed → ℕ → ℕ → List ℕ
unfolding pushed_at
before p i k = if leb k i then pushed_at p (get_elem? p.ins (i - k)) else []

abbrev loop_body_at : Parsed → ℕ → Ins → List ℕ
unfolding before
loop_body_at p i for_loop = before p i 1
loop_body_at p i while_loop = before p i 1 ++ before p i 2
loop_body_at p i _ = []

abbrev entries_from : Parsed → ℕ → List Ins → List ℕ
unfolding entry_at
entries_from p i [] = []
entries_from p i (ins ∷ rest) = entry_at p i ins ++ entries_from p (suc i) rest

abbrev loop_bodies_from : Parsed → ℕ → List Ins → List ℕ
unfolding loop_body_at
loop_bodies_from p i [] = []
loop_bodies_from p i (ins ∷ rest) = loop_body_at p i ins ++ loop_bodies_from p (suc i) rest

-- `entries` and `loop_bodies`
unfoldable pub fn_entries : Parsed → List ℕ
unfolding entries_from
fn_entries p = entries_from p 0 p.ins

unfoldable pub loop_bodies : Parsed → List ℕ
unfolding loop_bodies_from
loop_bodies p = loop_bodies_from p 0 p.ins

abbrev pub has_pc : List ℕ → ℕ → Bool
has_pc pcs pc = any (λ k. k == pc) pcs

-- `entries.contains(&i) || loop_bodies.contains(&i)`
unfoldable pub starts_fn : Parsed → ℕ → Bool
unfolding fn_entries loop_bodies
starts_fn p i = has_pc (fn_entries p) i || has_pc (loop_bodies p) i

abbrev pub fn_at : Bool → ℕ → Option ℕ → Option ℕ
fn_at true i cur = some i
fn_at false i cur = cur

abbrev in_loop : Parsed → Option ℕ → Bool
unfolding loop_bodies
in_loop p none = false
in_loop p (some f) = has_pc (loop_bodies p) f

abbrev pub is_exit : Ins → Bool
is_exit break_out = true
is_exit cont = true
is_exit _ = false

abbrev is_break : Ins → Bool
is_break break_out = true
is_break _ = false

unfoldable pub exits_from : Parsed → ℕ → List Ins → Option ℕ → Result ExitError (Unit {0})
unfolding in_loop starts_fn
exits_from p i [] cur = ok tt
exits_from p i (ins ∷ rest) cur =
    let here = fn_at (starts_fn p i) i cur in
    (if is_exit ins && not (in_loop p here)
      then err (outside_loop (get_elem? p.ins_lines i) (is_break ins))
      else ok tt)
    >> exits_from p (suc i) rest here

-- `check_loop_exits_in_loop`
unfoldable pub check_loop_exits_in_loop : Parsed → Result ExitError (Unit {0})
unfolding exits_from
check_loop_exits_in_loop p = exits_from p 0 p.ins none
