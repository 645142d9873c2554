-- ===== src/Checker/Entries/Accepted.antt =====
-- comp/src/parse.rs: what holds of a program that `check_label_arity` accepts.
use nmerkar.Base.{
  ◌≢◌, ℕ, suc, ◌≡◌, false, List, [], ◌∷◌, Elem, Option, none, some, inl, inr, Bool-cases,
}
use nmerkar.Base.Int.{ℤ, pos, ◌≤ℤ◌}
use nmerkar.Base.Results.{Result, ok, err, ◌>>=◌, >>=-eq-ok}
use nmerkar.Checker.Program.{Ins, Parsed}
use nmerkar.Checker.Depths.{EDepth}
use nmerkar.Checker.Walk.{Frame, ArityError, by_jump, Invoke, arity, invokes}
use nmerkar.Checker.Moves.{move}
use nmerkar.Checker.Arity.{
  fresh, enter, is_short, is_short-le, complaint, visit, visit_all, walk_from, arity_walk,
}
use nmerkar.Checker.Entries.{label_entry_depths, entry_in, check_label_arity}

-- Where the bodies of a program are read one after the other, each from the depth its label is
-- entered with: an instruction number, the instructions from there on, and the frame in front.
pub data Reads (p : Parsed) (entry_of : ℕ → Option ℤ) : ℕ → List Ins → Frame → Type 0 where
  first : Reads p entry_of 0 p.ins (fresh (some (pos 0)))
  next :
      {i : ℕ} {ins : Ins} {rest : List Ins} {f g : Frame}
      → Reads p entry_of i (ins ∷ rest) f
      → move p i ins (enter p entry_of i f) ≡ ok g
      → Reads p entry_of (suc i) rest g

module _ (p : Parsed) where
  visit-none :
      (i : ℕ) (v : Invoke) (out : Option (List (ℕ × EDepth)))
      → visit p i v none ≡ ok out
      → (is_short p v ≡ false) × (out ≡ none)
  unfolding visit
  visit-none i v out h = elim (Bool-cases (is_short p v)) [
    | inl q ↦
        let x : ◌≡◌ {A = Result ArityError (Option (List (ℕ × EDepth)))} (err (complaint p i v))
            (ok out) =
          rw q at h in
        absurd cc
    | inr q ↦
        let x : ◌≡◌ {A = Result ArityError (Option (List (ℕ × EDepth)))} (ok none) (ok out) =
          rw q at h in
        (q, cc)
  ]

  visit_all-none :
      (i : ℕ) (vs : List Invoke) (out : Option (List (ℕ × EDepth)))
      → visit_all p i vs none ≡ ok out
      → ((v : Invoke) → Elem v vs → is_short p v ≡ false) × (out ≡ none)
  unfolding visit_all
  visit_all-none i [] out h = (λ v m. absurd m, cc)
  visit_all-none i (w ∷ vs) out h =
      let (a, e, k) = >>=-eq-ok (visit p i w none) (visit_all p i vs) h in
      let (q, n) = visit-none i w a e in
      let (all_long, z) = visit_all-none i vs out (rw n at k) in
      (λ v m. elim m [ inl s ↦ rw (← s) q | inr t ↦ all_long v t ], z)

  step-none :
      (entry_of : ℕ → Option ℤ) (i : ℕ) (ins : Ins) (rest : List Ins) (f : Frame)
      (out : Option (List (ℕ × EDepth)))
      → walk_from p entry_of i (ins ∷ rest) f none ≡ ok out
      → ((v : Invoke) → Elem v (invokes p i ins (enter p entry_of i f)) → is_short p v ≡ false)
        × ((g : Frame)
            → move p i ins (enter p entry_of i f) ≡ ok g
            → walk_from p entry_of (suc i) rest g none ≡ ok out)
  unfolding walk_from
  step-none entry_of i ins rest f out h =
      let here = enter p entry_of i f in
      let (a, e, k) =
        >>=-eq-ok (visit_all p i (invokes p i ins here) none)
          (λ sink. move p i ins here >>= (λ behind. walk_from p entry_of (suc i) rest behind sink))
          h in
      let (long, n) = visit_all-none i (invokes p i ins here) a e in (long, λ g m. rw (m, n) at k)

  pub Reads-walk :
      {entry_of : ℕ → Option ℤ} {i : ℕ} {rest : List Ins} {f : Frame}
      {out : Option (List (ℕ × EDepth))}
      → arity_walk p entry_of none ≡ ok out
      → Reads p entry_of i rest f
      → walk_from p entry_of i rest f none ≡ ok out
  unfolding arity_walk
  Reads-walk h first = h
  Reads-walk {entry_of} {out} h (next {i} {ins} {rest} {f} {g} r m) =
      (step-none entry_of i ins rest f out (Reads-walk h r)).1 g m

-- In a program that is accepted, wherever an instruction hands a label control by a call or a
-- callback while the depth is known, the stack holds at least as many cells as the label declares
-- parameters. The depths at the labels are those of `label_entry_depths`.
pub check_label_arity-le :
    (p : Parsed) (m : List (ℕ × Option ℤ))
    → label_entry_depths p ≡ ok m
    → check_label_arity p ≡ ok tt
    → {i : ℕ} {ins : Ins} {rest : List Ins} {f : Frame} → Reads p (entry_in m) i (ins ∷ rest) f
    → (v : Invoke) → Elem v (invokes p i ins (enter p (entry_in m) i f))
    → v.how ≢ by_jump
    → pos (arity p v.target) ≤ℤ v.entry
unfolding check_label_arity
check_label_arity-le p m e h {i} {ins} {rest} {f} r v t =
    let k : (arity_walk p (entry_in m) none >>= (λ o. ok tt)) ≡ ok tt = rw e at h in
    let (out, w, z) = >>=-eq-ok (arity_walk p (entry_in m) none) (λ o. ok tt) k in
    is_short-le p v ((step-none p (entry_in m) i ins rest f out (Reads-walk p w r)).0 v t)
