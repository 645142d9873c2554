-- ===== src/Checker/Entries.antt =====
-- comp/src/parse.rs: the entry depths of the labels, and the check of label calls.
pub mod Accepted
pub mod Cells
pub mod Handed
use nmerkar.Base.{
  ℕ, zero, suc, ◌+◌, min, Bool, true, false, not, ◌&&◌, ◌||◌, List, [], ◌∷◌, ◌++◌, any, length,
  Option, none, some, Text, lookup, if◌then◌else◌, ◌==◌,
}
use nmerkar.Base.Int.{ℤ, pos}
use nmerkar.Base.Results.{Result, ok, ◌>>=◌}
use nmerkar.Checker.Program.{Ins, call, push_addr, weave, WeaveMeta, Parsed}
use nmerkar.Checker.Depths.{
  EDepth, unknown, known, poison, join_depth, depth_eq, get, put, depth_at, as_known, join_at,
}
use nmerkar.Checker.Walk.{ArityError, arity}
use nmerkar.Checker.Arity.{candidates, is_label, arity_walk}

abbrev to_list : Option ℕ → List ℕ
to_list none = []
to_list (some pc) = pc ∷ []

-- `p.labels.get(l)`
abbrev pc_list : Parsed → Text → List ℕ
unfolding lookup
pc_list p l = to_list (lookup l p.labels)

abbrev entry_pcs : Parsed → Option Text → List ℕ
unfolding pc_list
entry_pcs p none = []
entry_pcs p (some el) = pc_list p el

abbrev task_pcs : List WeaveMeta → List ℕ
task_pcs [] = []
task_pcs (t ∷ ts) = t.pc ∷ task_pcs ts

abbrev frame_entries : Parsed → List Ins → List ℕ
unfolding pc_list
frame_entries p [] = []
frame_entries p (call l ∷ rest) = pc_list p l ++ frame_entries p rest
frame_entries p (weave ts ∷ rest) = task_pcs ts ++ frame_entries p rest
frame_entries p (_ ∷ rest) = frame_entries p rest

abbrev export_pcs : Parsed → List (Text × Text) → List ℕ
unfolding pc_list
export_pcs p [] = []
export_pcs p ((c, l) ∷ rest) = pc_list p l ++ export_pcs p rest

-- `call_entries`
unfoldable pub call_entries : Parsed → List ℕ
unfolding pc_list
call_entries p = 0 ∷ entry_pcs p p.entry_label ++ (frame_entries p p.ins ++ export_pcs p p.exports)

abbrev pushed : Parsed → List Ins → List ℕ
unfolding pc_list
pushed p [] = []
pushed p (push_addr l ∷ rest) = pc_list p l ++ pushed p rest
pushed p (_ ∷ rest) = pushed p rest

-- `push_targets`
unfoldable pub push_targets : Parsed → List ℕ
unfolding pc_list
push_targets p = pushed p p.ins

abbrev pub has : List ℕ → ℕ → Bool
has pcs pc = any (λ k. k == pc) pcs

abbrev with_labels : List (Text × ℕ) → List (ℕ × EDepth)
unfolding put
with_labels [] = []
with_labels ((n, pc) ∷ labels) = put pc unknown (with_labels labels)

abbrev with_all : List ℕ → EDepth → List (ℕ × EDepth) → List (ℕ × EDepth)
unfolding put
with_all [] e st = st
with_all (pc ∷ pcs) e st = put pc e (with_all pcs e st)

-- The entry label stands elsewhere, so nothing in front of it runs.
abbrev dead_prefix : Parsed → Bool
unfolding pc_list
dead_prefix p = any (λ pc. not (pc == 0)) (entry_pcs p p.entry_label)

abbrev with_start : Parsed → List (ℕ × EDepth) → List (ℕ × EDepth)
unfolding put pc_list dead_prefix
with_start p st =
    if is_label p 0 then st else put 0 (if dead_prefix p then poison else known (pos 0)) st

-- `st` in front of the rounds
unfoldable pub first_depths : Parsed → List (ℕ × EDepth)
unfolding with_start with_all with_labels entry_pcs pc_list
first_depths p =
    with_start p (with_all (entry_pcs p p.entry_label) (known (pos 0)) (with_labels p.labels))

-- The candidates are joined to the depths; the flag says that some depth changed.
unfoldable pub merge : List (ℕ × EDepth) → List (ℕ × EDepth) → Bool → List (ℕ × EDepth) × Bool
unfolding join_depth depth_at join_at
merge [] st changed = (st, changed)
merge ((pc, cand) ∷ cands) st changed =
    merge cands (join_at pc cand st)
      (changed || not (depth_eq (join_depth (depth_at pc st) cand) (depth_at pc st)))

-- One walk in collect mode, and the join of what it found
unfoldable pub round : Parsed → List (ℕ × EDepth) → Result ArityError (List (ℕ × EDepth) × Bool)
unfolding arity_walk merge depth_at
round p st = do
  cands ← arity_walk p (λ pc. as_known (depth_at pc st)) (some [])
  ok (merge (candidates cands) st false)

-- `if !changed { break; }`
abbrev again :
    Result ArityError (List (ℕ × EDepth))
    → Bool
    → List (ℕ × EDepth)
    → Result ArityError (List (ℕ × EDepth))
again more true st = more
again more false st = ok st

-- `for _ in 0..max_rounds`
unfoldable pub rounds : Parsed → ℕ → List (ℕ × EDepth) → Result ArityError (List (ℕ × EDepth))
unfolding round
rounds p zero st = ok st
rounds p (suc n) st = do (next, changed) ← round p st; again (rounds p n next) changed next

-- A label whose address is only pushed
abbrev pub only_pushed : Parsed → ℕ → Bool
unfolding push_targets call_entries
only_pushed p pc = has (push_targets p) pc && not (has (call_entries p) pc)

abbrev settled_one : Parsed → ℕ → EDepth → Option ℤ
unfolding push_targets call_entries arity
settled_one p pc unknown = if only_pushed p pc then none else some (pos (arity p pc))
settled_one p pc e = as_known e

unfoldable pub settled : Parsed → List (ℕ × EDepth) → List (ℕ × Option ℤ)
unfolding settled_one
settled p [] = []
settled p ((pc, e) ∷ st) = (pc, settled_one p pc e) ∷ settled p st

-- `label_entry_depths`
unfoldable pub label_entry_depths : Parsed → Result ArityError (List (ℕ × Option ℤ))
unfolding rounds settled first_depths
label_entry_depths p = do
  st ← rounds p (min (length p.labels + 2) 256) (first_depths p)
  ok (settled p st)

abbrev flatten : Option (Option ℤ) → Option ℤ
flatten none = none
flatten (some o) = o

unfoldable pub entry_in : List (ℕ × Option ℤ) → ℕ → Option ℤ
unfolding get
entry_in entries pc = flatten (get pc entries)

-- `check_label_arity`
unfoldable pub check_label_arity : Parsed → Result ArityError (Unit {0})
unfolding label_entry_depths arity_walk entry_in
check_label_arity p = do
  entries ← label_entry_depths p
  end ← arity_walk p (entry_in entries) none
  ok tt
