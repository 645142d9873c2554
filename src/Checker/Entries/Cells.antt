-- ===== src/Checker/Entries/Cells.antt =====
-- comp/src/parse.rs: the cells that a program has pushed where it calls a label.
use nmerkar.Base.{
  ℕ, zero, suc, ◌+◌, ◌≡◌, refl, arith, Bool, true, false, List, [], ◌∷◌, get_elem?, Option, none,
  some, Text,
}
use nmerkar.Base.Int.{ℤ, pos, ◌+ℤ◌, ◌-ℤ◌}
use nmerkar.Base.Results.{ok, ◌>>=◌, >>=-eq-ok}
use nmerkar.Checker.Program.{Ins, push_i, push_f, push_s, push_addr, Parsed}
use nmerkar.Checker.Depths.{EDepth}
use nmerkar.Checker.Walk.{Frame, invokes}
use nmerkar.Checker.Moves.{move, shifted}
use nmerkar.Checker.Arity.{starts_body, enter, visit_all, walk_from, arity_walk}
use nmerkar.Checker.Entries.Accepted.{Reads, first, next, Reads-walk}

abbrev pub At : Parsed → ℕ → Ins → Type 0
At p k ins = get_elem? p.ins k ≡ some ins

-- The instructions that put one cell on the stack and do nothing else.
abbrev pub is_push : Ins → Bool
is_push (push_i _) = true
is_push (push_f _) = true
is_push (push_s _) = true
is_push (push_addr _) = true
is_push _ = false

-- The cells on the stack of a body that begins at `pc` with `d` cells, as far as it only pushes.
pub data Cells (p : Parsed) (pc d : ℕ) : ℕ → ℕ → Type 0 where
  begin : Cells p pc d pc d
  push :
      {i n : ℕ} (ins : Ins)
      → Cells p pc d i n
      → At p i ins
      → is_push ins ≡ true
      → starts_body p (suc i) ≡ false
      → Cells p pc d (suc i) (suc n)

module _ (p : Parsed) (e : ℕ → Option ℤ) where
  -- The walk reads the instruction at a place with `n` cells.
  pub record Here (i n : ℕ) (ins : Ins) (rest : List Ins) : Type 0 where
    pub frame : Frame
    pub reads : Reads p e i (ins ∷ rest) frame
    pub depth : (enter p e i frame).depth ≡ some (pos n)

  move_ok :
      (i : ℕ) (ins : Ins) (rest : List Ins) (f : Frame) (out : Option (List (ℕ × EDepth)))
      → walk_from p e i (ins ∷ rest) f none ≡ ok out
      → (g : Frame) × (move p i ins (enter p e i f) ≡ ok g)
  unfolding walk_from
  move_ok i ins rest f out h =
      let here = enter p e i f in
      let (a, q, k) =
        >>=-eq-ok (visit_all p i (invokes p i ins here) none)
          (λ sink. move p i ins here >>= (λ behind. walk_from p e (suc i) rest behind sink)) h in
      let (g, z, w) =
        >>=-eq-ok (move p i ins here) (λ behind. walk_from p e (suc i) rest behind a) k in
      (g, z)

  -- Each instruction of an accepted program is read.
  read_at :
      (out : Option (List (ℕ × EDepth)))
      → arity_walk p e none ≡ ok out
      → (i : ℕ) (rest : List Ins) (f : Frame) → Reads p e i rest f
      → (k : ℕ) (ins : Ins) → get_elem? rest k ≡ some ins
      → (g : Frame) × (tail : List Ins) × Reads p e (k + i) (ins ∷ tail) g
  read_at out h i [] f r k ins q = absurd cc
  read_at out h i (x ∷ xs) f r zero ins q =
      let same : x ≡ ins = cc in let z : 0 + i ≡ i = omega arith in (f, xs, rw (z, ← same) r)
  read_at out h i (x ∷ xs) f r (suc k) ins q =
      let (g, m) = move_ok i x xs f out (Reads-walk p h r) in
      let z : suc k + i ≡ k + suc i = omega arith in
      rw z (read_at out h (suc i) xs g (next r m) k ins q)

  Reads-rest :
      {i : ℕ} {rest : List Ins} {f : Frame}
      → Reads p e i rest f
      → (k : ℕ) → get_elem? p.ins (k + i) ≡ get_elem? rest k
  Reads-rest first k = let z : k + 0 ≡ k = omega arith in rw z refl
  Reads-rest (next {i} r m) k =
      let z : k + suc i ≡ suc k + i = omega arith in rw z (Reads-rest r (suc k))

  one_more : (n : ℕ) (o : Option ℤ) → o ≡ some (pos n) → shifted 0 1 o ≡ some (pos (suc n))
  unfolding shifted ◌+ℤ◌ ◌-ℤ◌
  one_more n none h = absurd cc
  one_more n (some x) h = let z : x ≡ pos n = cc in rw z (ground arith)

  push_move :
      (i n : ℕ) (ins : Ins) (f : Frame)
      → is_push ins ≡ true
      → f.depth ≡ some (pos n)
      → (g : Frame) × (move p i ins f ≡ ok g) × (g.depth ≡ some (pos (suc n)))
  unfolding move
  push_move i n (push_i x) f h q = (_, refl, one_more n f.depth q)
  push_move i n (push_f x) f h q = (_, refl, one_more n f.depth q)
  push_move i n (push_s x) f h q = (_, refl, one_more n f.depth q)
  push_move i n (push_addr x) f h q = (_, refl, one_more n f.depth q)
  push_move i n x f h q = absurd cc

  -- A body that only pushes is walked with the cells it has pushed.
  module _ (out : Option (List (ℕ × EDepth))) (walks : arity_walk p e none ≡ ok out)
      (pc d : ℕ) where
    next-Here :
        (i n : ℕ) (ins ins2 : Ins) (rest : List Ins) (h : Here i n ins rest) (g : Frame)
        → move p i ins (enter p e i h.frame) ≡ ok g
        → g.depth ≡ some (pos (suc n))
        → starts_body p (suc i) ≡ false
        → At p (suc i) ins2
        → (tail : List Ins) × (k : Here (suc i) (suc n) ins2 tail) × (k.frame ≡ g)
    next-Here i n ins ins2 [] h g m q s a =
        let r : Reads p e (suc i) [] g = next h.reads m in
        let z : 0 + suc i ≡ suc i = omega arith in
        let w : get_elem? p.ins (suc i) ≡ none = rw z at (Reads-rest r 0) in absurd cc
    next-Here i n ins ins2 (y ∷ tail) h g m q s a =
        let r : Reads p e (suc i) (y ∷ tail) g = next h.reads m in
        let z : 0 + suc i ≡ suc i = omega arith in
        let w : get_elem? p.ins (suc i) ≡ some y = rw z at (Reads-rest r 0) in
        let same : y ≡ ins2 = cc in
        (tail, record { frame = g; reads = rw same at r; depth = rw s q }, refl)

    pub Cells-Here :
        {i n : ℕ}
        → e pc ≡ some (pos d)
        → starts_body p pc ≡ true
        → Cells p pc d i n
        → (ins : Ins) → At p i ins
        → (tail : List Ins) × Here i n ins tail
    Cells-Here known s begin ins a =
        let (g, tail, r) = read_at out walks 0 p.ins _ first pc ins a in
        let z : pc + 0 ≡ pc = omega arith in
        (tail, record { frame = g; reads = rw z at r; depth = rw (s, known) refl })
    Cells-Here known s (push {i} {n} x c a q b) ins a2 =
        let (tail, h) = Cells-Here known s c x a in
        let (g, m, w) = push_move i n x (enter p e i h.frame) q h.depth in
        let (rest, k, z) = next-Here i n x ins tail h g m w b a2 in (rest, k)

    -- Behind an address that is pushed, the walk knows whose it is.
    pub pushed-Here :
        {i n : ℕ} (l : Text) (ins : Ins)
        → e pc ≡ some (pos d)
        → starts_body p pc ≡ true
        → Cells p pc d i n
        → At p i (push_addr l)
        → starts_body p (suc i) ≡ false
        → At p (suc i) ins
        → (tail : List Ins) × (k : Here (suc i) (suc n) ins tail) × (s : List (Option Text))
          × ((enter p e (suc i) k.frame).shadow ≡ some l ∷ s)
    unfolding move
    pushed-Here {i} {n} l ins known s c a b a2 =
        let (tail, h) = Cells-Here known s c (push_addr l) a in
        let f = enter p e i h.frame in
        let g : Frame = record f { depth = shifted 0 1 f.depth; shadow = some l ∷ f.shadow } in
        let (rest, k, z) =
          next-Here i n (push_addr l) ins tail h g refl (one_more n f.depth h.depth) b a2 in
        (rest, k, f.shadow, rw (b, z) refl)
