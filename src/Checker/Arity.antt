-- ===== src/Checker/Arity.antt =====
-- comp/src/parse.rs: the walk in its two modes.
use nmerkar.Base.{
  ◌≡◌, ◌≢◌, refl, ℕ, suc, Bool, true, false, ◌&&◌, ◌||◌, List, [], ◌∷◌, any, get_elem?, Option,
  none, some, Text, if◌then◌else◌, ◌==◌,
}
use nmerkar.Base.Int.{ℤ, pos, ◌-ℤ◌, lt_ℤ, lt_ℤ-le, ◌≤ℤ◌}
use nmerkar.Base.Results.{Result, ok, err, ◌>>=◌}
use nmerkar.Checker.Program.{Ins, Parsed}
use nmerkar.Checker.Depths.{EDepth, known, join_at}
use nmerkar.Checker.Walk.{
  Frame, ArityError, short_call, short_callback, How, by_call, by_callback, by_jump, Invoke, arity,
  param_names, invokes,
}
use nmerkar.Checker.Moves.{move}

abbrev pub is_checked : How → Bool
is_checked by_call = true
is_checked (by_callback _) = true
is_checked by_jump = false

-- The label declares more parameters than the stack holds.
unfoldable pub is_short : Parsed → Invoke → Bool
unfolding lt_ℤ
is_short p v = is_checked v.how && lt_ℤ v.entry (pos (arity p v.target))

checked-ne-jump : (how : How) → how ≢ by_jump → is_checked how ≡ true
checked-ne-jump by_call h = refl
checked-ne-jump (by_callback w) h = refl
checked-ne-jump by_jump h = absurd (h refl)

pub is_short-le :
    (p : Parsed) (v : Invoke)
    → is_short p v ≡ false
    → v.how ≢ by_jump
    → pos (arity p v.target) ≤ℤ v.entry
unfolding is_short
is_short-le p v h n = lt_ℤ-le v.entry (pos (arity p v.target)) (rw (checked-ne-jump v.how n) at h)

-- `if d > 0 { d } else { 0 }`
abbrev above_zero : ℤ → ℤ
unfolding lt_ℤ
above_zero d = if lt_ℤ (pos 0) d then d else pos 0

abbrev shortage : How → Option ℕ → Text → ℕ → Text → ℤ → ArityError
unfolding ◌-ℤ◌ lt_ℤ
shortage (by_callback what) line label n names entry =
    short_callback line label n names what entry (pos n -ℤ entry)
shortage _ line label n names entry =
    short_call line label n names entry (pos n -ℤ above_zero entry)

-- The diagnostic at an instruction
unfoldable pub complaint : Parsed → ℕ → Invoke → ArityError
unfolding ◌-ℤ◌ lt_ℤ
complaint p i v =
    shortage v.how (get_elem? p.ins_lines i) v.label (arity p v.target) (param_names p v.target)
      v.entry

-- With a sink a label's depth is joined to the others (`join_into`), without one it is checked.
unfoldable pub visit :
    Parsed
    → ℕ
    → Invoke
    → Option (List (ℕ × EDepth))
    → Result ArityError (Option (List (ℕ × EDepth)))
unfolding is_short complaint join_at
visit p i v none = if is_short p v then err (complaint p i v) else ok none
visit p i v (some sink) = ok (some (join_at v.target (known v.entry) sink))

unfoldable pub visit_all :
    Parsed
    → ℕ
    → List Invoke
    → Option (List (ℕ × EDepth))
    → Result ArityError (Option (List (ℕ × EDepth)))
unfolding visit
visit_all p i [] sink = ok sink
visit_all p i (v ∷ vs) sink = do next ← visit p i v sink; visit_all p i vs next

-- What a walk in collect mode has found
abbrev pub candidates : Option (List (ℕ × EDepth)) → List (ℕ × EDepth)
candidates none = []
candidates (some sink) = sink

-- `p.labels.values().any(|&lpc| lpc == i)`
abbrev pub is_label : Parsed → ℕ → Bool
is_label p i = any (λ (n, pc). pc == i) p.labels

abbrev pub starts_body : Parsed → ℕ → Bool
starts_body p i = is_label p i || i == 0

abbrev pub fresh : Option ℤ → Frame
fresh d = record { depth = d; shadow = []; list_marks = [] }

-- A new body begins at a label.
abbrev pub enter : Parsed → (ℕ → Option ℤ) → ℕ → Frame → Frame
enter p entry_of i f = if starts_body p i then fresh (entry_of i) else f

unfoldable pub walk_from :
    Parsed
    → (ℕ → Option ℤ)
    → ℕ
    → List Ins
    → Frame
    → Option (List (ℕ × EDepth))
    → Result ArityError (Option (List (ℕ × EDepth)))
unfolding invokes move visit_all
walk_from p entry_of i [] f sink = ok sink
walk_from p entry_of i (ins ∷ rest) f sink = do
  let here = enter p entry_of i f
  next ← visit_all p i (invokes p i ins here) sink
  behind ← move p i ins here
  walk_from p entry_of (suc i) rest behind next

-- `arity_walk`
unfoldable pub arity_walk :
    Parsed
    → (ℕ → Option ℤ)
    → Option (List (ℕ × EDepth))
    → Result ArityError (Option (List (ℕ × EDepth)))
unfolding walk_from
arity_walk p entry_of sink = walk_from p entry_of 0 p.ins (fresh (some (pos 0))) sink
