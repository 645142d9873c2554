-- ===== src/Checker/Exits/Loops.antt =====
-- comp/src/parse.rs: where `break` and `cont` stand in a program that `check_loop_exits_in_loop`
-- accepts.
use nmerkar.Base.{
  ℕ, zero, suc, ◌+◌, ◌≤◌, ◌<◌, ◌≡◌, refl, arith, Bool, true, false, not, ◌&&◌, List, [], ◌∷◌,
  get_elem?, Option, none, some, ◌⊎◌, if◌then◌else◌,
}
use native.Mathlib.Decide.{dec_lt}
use nmerkar.Base.Results.{ok, err, >>=-eq-ok}
use nmerkar.Checker.Program.{Ins, Parsed}
use nmerkar.Checker.Exits.{
  ExitError, outside_loop, loop_bodies, has_pc, starts_fn, fn_at, in_loop, is_exit, is_break,
  exits_from, check_loop_exits_in_loop,
}
use nmerkar.Checker.Exits.Shapes.{FnEntry, LoopBody}
use nmerkar.Checker.Exits.Shown.{loop_bodies-LoopBody, starts_fn-none}

-- The innermost function entry or loop body of the check
record IsInnermost (p : Parsed) (i f : ℕ) : Type 0 where
  reached : f ≤ i
  unbroken : (j : ℕ) → f < j → j ≤ i → starts_fn p j ≡ false

module _ (p : Parsed) where
  abbrev Behind : ℕ → Option ℕ → Type 0
  Behind i none = Unit
  Behind i (some f) = (f < i) × ((j : ℕ) → f < j → j < i → starts_fn p j ≡ false)

  abbrev Within : ℕ → Option ℕ → Type 0
  Within i none = Unit
  Within i (some f) = IsInnermost p i f

  fn_at-Within :
      (i : ℕ) (b : Bool) (cur : Option ℕ)
      → starts_fn p i ≡ b
      → Behind i cur
      → Within i (fn_at b i cur)
  fn_at-Within i true cur e h = record {
    reached = omega arith;
    unbroken = λ j l m. absurd (omega arith);
  }
  fn_at-Within i false none e h = tt
  fn_at-Within i false (some f) e h = record {
    reached = omega arith;
    unbroken = λ j l m. elim (dec_lt j i) [
      | yes q ↦ h.1 j l q
      | no q ↦ let z : j ≡ i = omega arith in rw z e
    ];
  }

  Within-Behind : (i : ℕ) (cur : Option ℕ) → Within i cur → Behind (suc i) cur
  Within-Behind i none h = tt
  Within-Behind i (some f) h = (omega (arith, h.reached), λ j l m. h.unbroken j l (omega arith))

  in_loop-IsInnermost :
      (i : ℕ) (cur : Option ℕ)
      → in_loop p cur ≡ true
      → Within i cur
      → (f : ℕ) × IsInnermost p i f × (has_pc (loop_bodies p) f ≡ true)
  unfolding in_loop
  in_loop-IsInnermost i none e h = absurd cc
  in_loop-IsInnermost i (some f) e h = (f, h, e)

  exit_passes :
      (b c : Bool) (x : ExitError)
      → (if b && not c then err x else ok tt) ≡ ok tt
      → b ≡ true
      → c ≡ true
  exit_passes true true x h e = refl
  exit_passes true false x h e = absurd cc
  exit_passes false c x h e = absurd cc

  exits_from-IsInnermost :
      (i : ℕ) (rest : List Ins) (cur : Option ℕ)
      → exits_from p i rest cur ≡ ok tt
      → Behind i cur
      → (k : ℕ) (ins : Ins) → get_elem? rest k ≡ some ins
      → is_exit ins ≡ true
      → (f : ℕ) × IsInnermost p (k + i) f × (has_pc (loop_bodies p) f ≡ true)
  unfolding exits_from
  exits_from-IsInnermost i [] cur h b k ins g e = absurd cc
  exits_from-IsInnermost i (x ∷ rest) cur h b zero ins g e =
      let here = fn_at (starts_fn p i) i cur in
      let (u, q, z) =
        >>=-eq-ok
          (if is_exit x && not (in_loop p here)
            then err (outside_loop (get_elem? p.ins_lines i) (is_break x))
            else ok tt)
          (λ _. exits_from p (suc i) rest here) h in
      let same : x ≡ ins = cc in
      let n : 0 + i ≡ i = omega arith in
      rw n (
        in_loop-IsInnermost i here (exit_passes (is_exit x) (in_loop p here) _ q (rw same e))
          (fn_at-Within i (starts_fn p i) cur refl b))
  exits_from-IsInnermost i (x ∷ rest) cur h b (suc k) ins g e =
      let here = fn_at (starts_fn p i) i cur in
      let (u, q, z) =
        >>=-eq-ok
          (if is_exit x && not (in_loop p here)
            then err (outside_loop (get_elem? p.ins_lines i) (is_break x))
            else ok tt)
          (λ _. exits_from p (suc i) rest here) h in
      let n : suc k + i ≡ k + suc i = omega arith in
      rw n (
        exits_from-IsInnermost (suc i) rest here z
          (Within-Behind i here (fn_at-Within i (starts_fn p i) cur refl b)) k ins g e)

-- The innermost body that an instruction stands behind: no entry of a function and no body of a
-- loop begins between the two.
pub record InLoop (p : Parsed) (i f : ℕ) : Type 0 where
  pub body : LoopBody p f
  pub reached : f ≤ i
  pub unbroken : (j : ℕ) → f < j → j ≤ i → ¬ (FnEntry p j ⊎ LoopBody p j)

-- In a program that is accepted, a `break` or a `cont` stands behind the first instruction of a
-- label whose address is pushed right in front of a `for` or a `while`, or two places in front of a
-- `while`, so as its body or its test. Between the two there begins no such label, and no label that
-- is called, that is a task or whose address is pushed as a value (not in front of an `if`, a `for`
-- or a `while`, nor as the first of two addresses in front of an `if` with `else` or a `while`). A
-- label that is only the body of an `if` may begin there.
pub check_loop_exits_in_loop-InLoop :
    (p : Parsed)
    → check_loop_exits_in_loop p ≡ ok tt
    → (i : ℕ) (ins : Ins) → get_elem? p.ins i ≡ some ins
    → is_exit ins ≡ true
    → (f : ℕ) × InLoop p i f
unfolding check_loop_exits_in_loop
check_loop_exits_in_loop-InLoop p h i ins g e =
    let n : i + 0 ≡ i = omega arith in
    let (f, inner, found) = exits_from-IsInnermost p 0 p.ins none h tt i ins g e in
    let near : IsInnermost p i f = rw n at inner in
    (
      f,
      record {
        body = loop_bodies-LoopBody p f found;
        reached = near.reached;
        unbroken = λ j a b. starts_fn-none p j (near.unbroken j a b);
      },
    )
