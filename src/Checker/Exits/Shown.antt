-- ===== src/Checker/Exits/Shown.antt =====
-- comp/src/parse.rs: which instruction numbers `check_loop_exits_in_loop` takes for the bodies of
-- loops and for the entries of functions.
use nmerkar.Base.{
  ℕ, zero, suc, ◌+◌, ◌-◌, leb, ◌≡◌, refl, subst, arith, true, false, List, [], ◌∷◌, get_elem?,
  Option, none, some, ◌⊎◌, inl, inr, ◌==◌, ==_iff, Text, lookup, Elem, Elem-left, Elem-right,
  Elem-split, Elem_of_any, any_of_Elem, Bool-cases,
}
use nmerkar.Checker.Program.{
  Ins, push_addr, for_loop, while_loop, if_true, if_else, call, weave, Parsed,
}
use nmerkar.Checker.Exits.{
  entry_at, entries_from, fn_entries, loop_body_at, loop_bodies_from, loop_bodies, has_pc,
  starts_fn, resolve, before, pushed_at, feeds_cf,
}
use nmerkar.Checker.Exits.Shapes.{
  At, LoopBody, of_for, of_while, of_while_second, takes_one, takes_two, FnEntry, called, woven,
  pushed,
}

has_pc-Elem : (pcs : List ℕ) (f : ℕ) → has_pc pcs f ≡ true → Elem f pcs
has_pc-Elem pcs f h =
    let (k, m, q) = Elem_of_any (λ k. k == f) pcs h in subst (λ x. Elem x pcs) ((==_iff k f).0 q) m

Elem-has_pc : (pcs : List ℕ) (f : ℕ) → Elem f pcs → has_pc pcs f ≡ true
Elem-has_pc pcs f m = any_of_Elem (λ k. k == f) f pcs m ((==_iff f f).1 refl)

module _ (p : Parsed) where
  pushed_at-Elem :
      (o : Option Ins) (f : ℕ)
      → Elem f (pushed_at p o)
      → (l : Text) × (o ≡ some (push_addr l)) × (lookup l p.labels ≡ some f)
  unfolding pushed_at lookup
  pushed_at-Elem (some (push_addr l)) f m = (l, refl, ground (arith, m))
  pushed_at-Elem none f m = absurd m
  pushed_at-Elem (some x) f m = absurd m

  before_one :
      {R : Type 0} (i f : ℕ)
      → Elem f (before p i 1)
      → ((k : ℕ) (l : Text) → At p k (push_addr l) → i ≡ suc k → lookup l p.labels ≡ some f → R)
      → R
  unfolding before
  before_one i f m h = elim (Bool-cases (leb 1 i)) [
    | inl q ↦
        let x : Elem f (pushed_at p (get_elem? p.ins (i - 1))) = rw q at m in
        let (l, a, e) = pushed_at-Elem (get_elem? p.ins (i - 1)) f x in
        h (i - 1) l a (ground (arith, q)) e
    | inr q ↦ let x : Elem f [] = rw q at m in absurd x
  ]

  before_two :
      {R : Type 0} (i f : ℕ)
      → Elem f (before p i 2)
      → ((k : ℕ) (l : Text)
          → At p k (push_addr l)
          → i ≡ suc (suc k)
          → lookup l p.labels ≡ some f
          → R)
      → R
  unfolding before
  before_two i f m h = elim (Bool-cases (leb 2 i)) [
    | inl q ↦
        let x : Elem f (pushed_at p (get_elem? p.ins (i - 2))) = rw q at m in
        let (l, a, e) = pushed_at-Elem (get_elem? p.ins (i - 2)) f x in
        h (i - 2) l a (ground (arith, q)) e
    | inr q ↦ let x : Elem f [] = rw q at m in absurd x
  ]

  -- What an instruction shows is a loop body.
  loop_body_at-LoopBody :
      (i : ℕ) (ins : Ins) (f : ℕ) → At p i ins → Elem f (loop_body_at p i ins) → LoopBody p f
  unfolding loop_body_at
  loop_body_at-LoopBody i for_loop f a m =
      before_one i f m (λ k l b e z. of_for k l b (rw e at a) z)
  loop_body_at-LoopBody i while_loop f a m = elim (Elem-split (before p i 1) (before p i 2) f m) [
    | inl x ↦ before_one i f x (λ k l b e z. of_while k l b (rw e at a) z)
    | inr x ↦ before_two i f x (λ k l b e z. of_while_second k l b (rw e at a) z)
  ]
  loop_body_at-LoopBody i ins f a m = absurd m

  loop_bodies_from-LoopBody :
      (i : ℕ) (rest : List Ins) (f : ℕ)
      → ((k : ℕ) → get_elem? p.ins (k + i) ≡ get_elem? rest k)
      → Elem f (loop_bodies_from p i rest)
      → LoopBody p f
  unfolding loop_bodies_from
  loop_bodies_from-LoopBody i [] f h m = absurd m
  loop_bodies_from-LoopBody i (ins ∷ rest) f h m =
      elim (Elem-split (loop_body_at p i ins) (loop_bodies_from p (suc i) rest) f m) [
        | inl x ↦ loop_body_at-LoopBody i ins f (let e : 0 + i ≡ i = omega arith in rw e at (h 0)) x
        | inr x ↦
            loop_bodies_from-LoopBody (suc i) rest f
              (λ k. let e : k + suc i ≡ suc k + i = omega arith in rw e (h (suc k))) x
      ]

  pub loop_bodies-LoopBody : (f : ℕ) → has_pc (loop_bodies p) f ≡ true → LoopBody p f
  unfolding loop_bodies
  loop_bodies-LoopBody f h =
      loop_bodies_from-LoopBody 0 p.ins f (λ k. let e : k + 0 ≡ k = omega arith in rw e refl)
        (has_pc-Elem (loop_bodies_from p 0 p.ins) f h)

  Elem-loop_bodies_from :
      (i k : ℕ) (rest : List Ins) (ins : Ins) (f : ℕ)
      → get_elem? rest k ≡ some ins
      → Elem f (loop_body_at p (k + i) ins)
      → Elem f (loop_bodies_from p i rest)
  unfolding loop_bodies_from
  Elem-loop_bodies_from i k [] ins f g m = absurd cc
  Elem-loop_bodies_from i zero (x ∷ rest) ins f g m =
      let e : 0 + i ≡ i = omega arith in
      let q : x ≡ ins = cc in
      Elem-left (loop_body_at p i x) (loop_bodies_from p (suc i) rest) f (rw q (rw e at m))
  Elem-loop_bodies_from i (suc k) (x ∷ rest) ins f g m =
      let e : suc k + i ≡ k + suc i = omega arith in
      Elem-right (loop_body_at p i x) (loop_bodies_from p (suc i) rest) f
        (Elem-loop_bodies_from (suc i) k rest ins f g (rw e at m))

  Elem-entries_from :
      (i k : ℕ) (rest : List Ins) (ins : Ins) (f : ℕ)
      → get_elem? rest k ≡ some ins
      → Elem f (entry_at p (k + i) ins)
      → Elem f (entries_from p i rest)
  unfolding entries_from
  Elem-entries_from i k [] ins f g m = absurd cc
  Elem-entries_from i zero (x ∷ rest) ins f g m =
      let e : 0 + i ≡ i = omega arith in
      let q : x ≡ ins = cc in
      Elem-left (entry_at p i x) (entries_from p (suc i) rest) f (rw q (rw e at m))
  Elem-entries_from i (suc k) (x ∷ rest) ins f g m =
      let e : suc k + i ≡ k + suc i = omega arith in
      Elem-right (entry_at p i x) (entries_from p (suc i) rest) f
        (Elem-entries_from (suc i) k rest ins f g (rw e at m))

  feeds_cf-value :
      (l : Text) (a b : Option Ins)
      → ((x : Ins) → a ≡ some x → takes_one x ≡ false)
      → ((m : Text) (x : Ins) → a ≡ some (push_addr m) → b ≡ some x → takes_two x ≡ false)
      → feeds_cf a b ≡ false
  feeds_cf-value l none b h k = refl
  feeds_cf-value l (some if_true) b h k = let z : true ≡ false = h if_true refl in absurd cc
  feeds_cf-value l (some (push_addr m)) none h k = refl
  feeds_cf-value l (some (push_addr m)) (some while_loop) h k =
      let z : true ≡ false = k m while_loop refl refl in absurd cc
  feeds_cf-value l (some (push_addr m)) (some if_else) h k =
      let z : true ≡ false = k m if_else refl refl in absurd cc
  feeds_cf-value l (some (push_addr m)) (some x) h k = refl
  feeds_cf-value l (some if_else) b h k = let z : true ≡ false = h if_else refl in absurd cc
  feeds_cf-value l (some for_loop) b h k = let z : true ≡ false = h for_loop refl in absurd cc
  feeds_cf-value l (some while_loop) b h k = let z : true ≡ false = h while_loop refl in absurd cc
  feeds_cf-value l (some x) b h k = refl

  Elem-resolve : (l : Text) (f : ℕ) → lookup l p.labels ≡ some f → Elem f (resolve p l)
  unfolding resolve
  Elem-resolve l f e = one (lookup l p.labels) e
    where
      one : (o : Option ℕ) → o ≡ some f → Elem f (elim o [ none ↦ [] | some pc ↦ pc ∷ [] ])
      one none q = absurd cc
      one (some pc) q = inl cc

  Elem-before :
      (i w k f : ℕ) (l : Text)
      → leb w i ≡ true
      → i - w ≡ k
      → At p k (push_addr l)
      → lookup l p.labels ≡ some f
      → Elem f (before p i w)
  unfolding before pushed_at
  Elem-before i w k f l h n a e = rw (h, n, a) (Elem-resolve l f e)

  shown : (f : ℕ) → LoopBody p f → Elem f (loop_bodies_from p 0 p.ins)
  unfolding loop_body_at
  shown f (of_for k l a b e) =
      Elem-loop_bodies_from 0 (suc k) p.ins for_loop f b
        (Elem-before (suc k + 0) 1 k f l (ground arith) (omega arith) a e)
  shown f (of_while k l a b e) =
      let i = suc k + 0 in
      Elem-loop_bodies_from 0 (suc k) p.ins while_loop f b (
        Elem-left (before p i 1) (before p i 2) f
          (Elem-before i 1 k f l (ground arith) (omega arith) a e))
  shown f (of_while_second k l a b e) =
      let i = suc (suc k) + 0 in
      Elem-loop_bodies_from 0 (suc (suc k)) p.ins while_loop f b (
        Elem-right (before p i 1) (before p i 2) f
          (Elem-before i 2 k f l (ground arith) (omega arith) a e))

  pub LoopBody-has_pc : (f : ℕ) → LoopBody p f → has_pc (loop_bodies p) f ≡ true
  unfolding loop_bodies
  LoopBody-has_pc f b = Elem-has_pc (loop_bodies_from p 0 p.ins) f (shown f b)

  entered : (f : ℕ) → FnEntry p f → Elem f (entries_from p 0 p.ins)
  unfolding entry_at
  entered f (called k l a e) = Elem-entries_from 0 k p.ins (call l) f a (Elem-resolve l f e)
  entered f (woven k ts a m) = Elem-entries_from 0 k p.ins (weave ts) f a m
  entered f (pushed k l a h t e) =
      let n : k + 0 + 1 ≡ suc k = omega arith in
      let n2 : k + 0 + 2 ≡ suc (suc k) = omega arith in
      let q : feeds_cf (get_elem? p.ins (k + 0 + 1)) (get_elem? p.ins (k + 0 + 2)) ≡ false =
        rw (n, n2)
          (feeds_cf-value l (get_elem? p.ins (suc k)) (get_elem? p.ins (suc (suc k))) h t) in
      Elem-entries_from 0 k p.ins (push_addr l) f a (rw q (Elem-resolve l f e))

  pub FnEntry-has_pc : (f : ℕ) → FnEntry p f → has_pc (fn_entries p) f ≡ true
  unfolding fn_entries
  FnEntry-has_pc f b = Elem-has_pc (entries_from p 0 p.ins) f (entered f b)

  -- Where the check begins no body, none begins.
  pub starts_fn-none : (j : ℕ) → starts_fn p j ≡ false → (FnEntry p j ⊎ LoopBody p j) → ⊥
  unfolding starts_fn
  starts_fn-none j h (inl e) = let q = FnEntry-has_pc j e in absurd (ground (arith, h, q))
  starts_fn-none j h (inr b) = let q = LoopBody-has_pc j b in absurd (ground (arith, h, q))
