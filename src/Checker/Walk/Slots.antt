-- ===== src/Checker/Walk/Slots.antt =====
-- comp/src/parse.rs: the label that an instruction hands control to, on a stack whose depth is known.
use nmerkar.Base.{
  ℕ, suc, ◌+◌, ◌-◌, min, ◌≤◌, ◌≡◌, refl, arith, List, [], ◌∷◌, length, Elem, Elem-left, Option,
  none, some, inl, Text, codes, lookup,
}
use nmerkar.Base.Int.{ℤ, pos, ◌+ℤ◌, ◌-ℤ◌, lt_ℤ}
use nmerkar.Checker.Program.{call, if_true, for_loop, while_loop, Parsed}
use nmerkar.Checker.Walk.{
  How, by_call, by_callback, Frame, invokes, invokes_at, process_slots, found, reach, in_cell,
  cell_at, slot_entry,
}

found-Elem :
    (how : How) (l : Text) (x : ℤ) (t : ℕ) (o : Option ℕ)
    → o ≡ some t
    → Elem (record { how = how; label = l; target = t; entry = x }) (found how l x o)
found-Elem how l x t none h = absurd cc
found-Elem how l x t (some k) h = let z : k ≡ t = cc in inl (rw z refl)

min_zero : (n : ℕ) → min 0 n ≡ 0
min_zero n = omega arith

entry_pos : (m pops k : ℕ) → pops ≤ m → slot_entry (pos m) pops (pos k) ≡ pos (m - pops + k)
unfolding slot_entry ◌+ℤ◌ ◌-ℤ◌ lt_ℤ
entry_pos m pops k h = ground arith

slot-Elem :
    (p : Parsed) (s : List (Option Text)) (m pops k : ℕ) (more : List (ℕ × ℤ)) (what l : Text)
    (t : ℕ)
    → lookup l p.labels ≡ some t
    → pops ≤ m
    → Elem
        (record { how = by_callback what; label = l; target = t; entry = pos (m - pops + k) })
        (process_slots p (some l ∷ s) (pos m) pops ((0, pos k) ∷ more) what)
unfolding process_slots reach
slot-Elem p s m pops k more what l t h b =
    Elem-left (in_cell p what (slot_entry (pos m) pops (pos k)) (cell_at (some l ∷ s) 0))
      (process_slots p (some l ∷ s) (pos m) pops more what) _
      (rw (min_zero (suc (length s) - 1), entry_pos m pops k b)
        (found-Elem (by_callback what) l (pos (m - pops + k)) t (lookup l p.labels) h))

module _ (p : Parsed) (i : ℕ) (f : Frame) (l : Text) (t : ℕ) (e : lookup l p.labels ≡ some t) where
  pub invokes-call :
      (n : ℕ)
      → f.depth ≡ some (pos n)
      → Elem
          (record { how = by_call; label = l; target = t; entry = pos n })
          (invokes p i (call l) f)
  unfolding invokes invokes_at reach
  invokes-call n h = rw h (found-Elem by_call l (pos n) t (lookup l p.labels) e)

  module _ (n : ℕ) (s : List (Option Text)) (q : f.shadow ≡ some l ∷ s) where
    pub invokes-if :
        f.depth ≡ some (pos (suc (suc n)))
        → Elem
            (record { how = by_callback (codes "if"); label = l; target = t; entry = pos n })
            (invokes p i if_true f)
    unfolding invokes invokes_at
    invokes-if h =
        let z : suc (suc n) - 2 + 0 ≡ n = omega arith in
        rw (h, q) (rw z at (slot-Elem p s (suc (suc n)) 2 0 [] (codes "if") l t e (omega arith)))

    pub invokes-for :
        f.depth ≡ some (pos (suc (suc n)))
        → Elem
            (record { how = by_callback (codes "for"); label = l; target = t; entry = pos (suc n) })
            (invokes p i for_loop f)
    unfolding invokes invokes_at
    invokes-for h =
        let z : suc (suc n) - 2 + 1 ≡ suc n = omega arith in
        rw (h, q) (rw z at (slot-Elem p s (suc (suc n)) 2 1 [] (codes "for") l t e (omega arith)))

    pub invokes-while :
        f.depth ≡ some (pos (suc (suc n)))
        → Elem
            (record { how = by_callback (codes "while"); label = l; target = t; entry = pos n })
            (invokes p i while_loop f)
    unfolding invokes invokes_at
    invokes-while h =
        let z : suc (suc n) - 2 + 0 ≡ n = omega arith in
        rw (h, q)
          (rw z at
            (slot-Elem p s (suc (suc n)) 2 0 ((1, pos 0) ∷ []) (codes "while") l t e (omega arith)))
