-- ===== src/Checker/Entries/Handed.antt =====
-- comp/src/parse.rs: the cells that a label finds in a program that `check_label_arity` accepts.
use nmerkar.Base.{ℕ, suc, ◌≤◌, ◌≡◌, arith, false, true, List, Option, none, some, Text, lookup}
use nmerkar.Base.Int.{ℤ, pos, ◌≤ℤ◌}
use nmerkar.Base.Results.{ok, ◌>>=◌, >>=-eq-ok}
use nmerkar.Checker.Program.{push_addr, call, if_true, for_loop, while_loop, Parsed}
use nmerkar.Checker.Depths.{EDepth}
use nmerkar.Checker.Walk.{arity}
use nmerkar.Checker.Walk.Slots.{invokes-call, invokes-if, invokes-for, invokes-while}
use nmerkar.Checker.Arity.{starts_body, enter, arity_walk}
use nmerkar.Checker.Entries.{label_entry_depths, entry_in, check_label_arity}
use nmerkar.Checker.Entries.Accepted.{check_label_arity-le}
use nmerkar.Checker.Entries.Cells.{At, Cells, Cells-Here, pushed-Here}

-- A label is handed control with so many cells behind a body that began at `pc` with `d`: by a call;
-- as the body of an `if`, which takes the address and a condition; of a `for`, which takes the
-- address and a count and gives the body an index; of a `while`, which takes two addresses.
pub data Handed (p : Parsed) (pc d t : ℕ) : ℕ → Type 0 where
  by_label :
      {i n : ℕ} (l : Text)
      → Cells p pc d i n
      → At p i (call l)
      → lookup l p.labels ≡ some t
      → Handed p pc d t n
  by_if :
      {i n : ℕ} (l : Text)
      → Cells p pc d i (suc n)
      → At p i (push_addr l)
      → starts_body p (suc i) ≡ false
      → At p (suc i) if_true
      → lookup l p.labels ≡ some t
      → Handed p pc d t n
  by_for :
      {i n : ℕ} (l : Text)
      → Cells p pc d i (suc n)
      → At p i (push_addr l)
      → starts_body p (suc i) ≡ false
      → At p (suc i) for_loop
      → lookup l p.labels ≡ some t
      → Handed p pc d t (suc n)
  by_while :
      {i n : ℕ} (l : Text)
      → Cells p pc d i (suc n)
      → At p i (push_addr l)
      → starts_body p (suc i) ≡ false
      → At p (suc i) while_loop
      → lookup l p.labels ≡ some t
      → Handed p pc d t n

le_of_pos : (a n : ℕ) → pos a ≤ℤ pos n → a ≤ n
le_of_pos a n h = omega (arith, h)

walk_passes :
    (p : Parsed) (m : List (ℕ × Option ℤ))
    → label_entry_depths p ≡ ok m
    → check_label_arity p ≡ ok tt
    → (out : Option (List (ℕ × EDepth))) × (arity_walk p (entry_in m) none ≡ ok out)
unfolding check_label_arity
walk_passes p m e h =
    let k : (arity_walk p (entry_in m) none >>= (λ o. ok tt)) ≡ ok tt = rw e at h in
    let (out, w, z) = >>=-eq-ok (arity_walk p (entry_in m) none) (λ o. ok tt) k in (out, w)

-- In a program that is accepted, a label declares no more parameters than it finds cells, where it
-- is handed control behind a run of instructions that push one cell each, from the start of a body
-- whose depth `label_entry_depths` knows as `d`. It finds `d` and the cells pushed at a call. As the
-- body of an `if` or of a `while` it finds two less than with its own address, and of a `for` one
-- less.
pub check_label_arity-Handed :
    (p : Parsed) (m : List (ℕ × Option ℤ))
    → label_entry_depths p ≡ ok m
    → check_label_arity p ≡ ok tt
    → (pc d t n : ℕ) → starts_body p pc ≡ true
    → entry_in m pc ≡ some (pos d)
    → Handed p pc d t n
    → arity p t ≤ n
check_label_arity-Handed p m e h pc d t n b k (by_label {i} l c a q) =
    let (out, w) = walk_passes p m e h in
    let (tail, here) = Cells-Here p (entry_in m) out w pc d k b c (call l) a in
    le_of_pos (arity p t) _ (
      check_label_arity-le p m e h here.reads _
        (invokes-call p i (enter p (entry_in m) i here.frame) l t q n here.depth) (λ z. absurd cc))
check_label_arity-Handed p m e h pc d t n b k (by_if {i} l c a s a2 q) =
    let (out, w) = walk_passes p m e h in
    let (tail, here, more, z) = pushed-Here p (entry_in m) out w pc d l if_true k b c a s a2 in
    le_of_pos (arity p t) _ (
      check_label_arity-le p m e h here.reads _
        (invokes-if p (suc i) (enter p (entry_in m) (suc i) here.frame) l t q n more z here.depth)
        (λ z. absurd cc))
check_label_arity-Handed p m e h pc d t _ b k (by_for {i} {n} l c a s a2 q) =
    let (out, w) = walk_passes p m e h in
    let (tail, here, more, z) = pushed-Here p (entry_in m) out w pc d l for_loop k b c a s a2 in
    le_of_pos (arity p t) _ (
      check_label_arity-le p m e h here.reads _
        (invokes-for p (suc i) (enter p (entry_in m) (suc i) here.frame) l t q n more z here.depth)
        (λ z. absurd cc))
check_label_arity-Handed p m e h pc d t _ b k (by_while {i} {n} l c a s a2 q) =
    let (out, w) = walk_passes p m e h in
    let (tail, here, more, z) = pushed-Here p (entry_in m) out w pc d l while_loop k b c a s a2 in
    le_of_pos (arity p t) _ (
      check_label_arity-le p m e h here.reads _
        (invokes-while p (suc i) (enter p (entry_in m) (suc i) here.frame) l t q n more z
          here.depth)
        (λ z. absurd cc))
