-- ===== src/Checker/Exits/Bodies.antt =====
-- comp/src/parse.rs: where label bodies end in a program that `check_label_bodies_end_with_ret`
-- accepts.
use native.Mathlib.Decide.{dec_lt}
use nmerkar.Base.{
  ◌↔◌, sym, ℕ, ◌-◌, ◌≤◌, ◌<◌, leb, ◌≡◌, refl, ap, arith, true, false, ◌||◌, List, [], ◌∷◌, length,
  get_elem?, Elem, Option, none, some, ◌⊎◌, inl, inr, Text, Bool-cases,
}
use nmerkar.Base.Results.{ok, err, >>=-eq-ok}
use nmerkar.Checker.Program.{Ins, Parsed}
use nmerkar.Checker.Exits.{
  insert_by_pc, sort_by_pc, is_final, is_skip, end_of, last_is_final, body_ends, bodies_end,
  check_label_bodies_end_with_ret,
}

abbrev AllFrom : ℕ → List (Text × ℕ) → Type 0
AllFrom pc [] = Unit
AllFrom pc ((m, q) ∷ rest) = (pc ≤ q) × AllFrom pc rest

abbrev IsSorted : List (Text × ℕ) → Type 0
IsSorted [] = Unit
IsSorted ((n, pc) ∷ rest) = AllFrom pc rest × IsSorted rest

AllFrom-trans : (a b : ℕ) (ls : List (Text × ℕ)) → a ≤ b → AllFrom b ls → AllFrom a ls
AllFrom-trans a b [] h k = tt
AllFrom-trans a b ((m, q) ∷ ls) h k = (omega (arith, k.0), AllFrom-trans a b ls h k.1)

AllFrom-insert :
    (a : ℕ) (n : Text) (pc : ℕ) (ls : List (Text × ℕ))
    → a ≤ pc
    → AllFrom a ls
    → AllFrom a (insert_by_pc (n, pc) ls)
unfolding insert_by_pc
AllFrom-insert a n pc [] h k = (h, tt)
AllFrom-insert a n pc ((m, q) ∷ ls) h k = elim (Bool-cases (leb pc q)) [
  | inl e ↦ rw e ((h, (k.0, k.1)))
  | inr e ↦ rw e ((k.0, AllFrom-insert a n pc ls h k.1))
]

insert-IsSorted :
    (n : Text) (pc : ℕ) (ls : List (Text × ℕ)) → IsSorted ls → IsSorted (insert_by_pc (n, pc) ls)
unfolding insert_by_pc
insert-IsSorted n pc [] h = (tt, tt)
insert-IsSorted n pc ((m, q) ∷ ls) h = elim (Bool-cases (leb pc q)) [
  | inl e ↦ let l : pc ≤ q = ground (arith, e) in rw e (((l, AllFrom-trans pc q ls l h.0), h))
  | inr e ↦
      let l : q ≤ pc = ground (arith, e) in
      rw e ((AllFrom-insert q n pc ls l h.0, insert-IsSorted n pc ls h.1))
]

sort-IsSorted : (ls : List (Text × ℕ)) → IsSorted (sort_by_pc ls)
unfolding sort_by_pc
sort-IsSorted [] = tt
sort-IsSorted ((n, pc) ∷ ls) = insert-IsSorted n pc (sort_by_pc ls) (sort-IsSorted ls)

module _ (x : Text × ℕ) where
  Elem-insert : (l : Text × ℕ) (ls : List (Text × ℕ)) → Elem x (insert_by_pc l ls) ↔ Elem x (l ∷ ls)
  unfolding insert_by_pc
  Elem-insert (n, pc) [] = (λ h. h, λ h. h)
  Elem-insert (n, pc) ((m, q) ∷ ls) = elim (Bool-cases (leb pc q)) [
    | inl e ↦ rw e ((λ h. h, λ h. h))
    | inr e ↦ rw e (ground (arith, Elem-insert (n, pc) ls))
  ]

  Elem-sort : (ls : List (Text × ℕ)) → Elem x (sort_by_pc ls) ↔ Elem x ls
  unfolding sort_by_pc
  Elem-sort [] = (λ h. h, λ h. h)
  Elem-sort (l ∷ ls) = ground (arith, Elem-insert l (sort_by_pc ls), Elem-sort ls)

-- Where the body at an instruction ends: at the next label, or behind the last instruction if no
-- label stands further on.
pub record IsEnd (p : Parsed) (ls : List (Text × ℕ)) (pc e : ℕ) : Type 0 where
  pub after : pc < e
  pub place :
      ((n : Text) × Elem (n, e) ls)
      ⊎ ((e ≡ length p.ins) × ((n : Text) (q : ℕ) → Elem (n, q) ls → q ≤ pc))
  pub nearest : (n : Text) (q : ℕ) → Elem (n, q) ls → pc < q → e ≤ q

-- The last instruction in front of a number never falls through.
abbrev pub EndsFinal : Parsed → ℕ → Type 0
EndsFinal p e = (ins : Ins) × (get_elem? p.ins (e - 1) ≡ some ins) × (is_final ins ≡ true)

module _ (p : Parsed) where
  final_of_ok :
      (name : Text) (last : ℕ) (o : Option Ins)
      → last_is_final p name last o ≡ ok tt
      → (ins : Ins) × (o ≡ some ins) × (is_final ins ≡ true)
  final_of_ok name last none h = absurd cc
  final_of_ok name last (some ins) h = elim (Bool-cases (is_final ins)) [
    | inl e ↦ (ins, refl, e)
    | inr e ↦ let z : err _ ≡ ok tt = rw e at h in absurd cc
  ]

  body_ends-EndsFinal :
      (name : Text) (pc e : ℕ)
      → is_skip name ≡ false
      → pc < e
      → body_ends p name pc e ≡ ok tt
      → EndsFinal p e
  unfolding body_ends
  body_ends-EndsFinal name pc e s l h =
      let t : (is_skip name || leb e pc) ≡ false = ground (arith, s) in
      let z : last_is_final p name (e - 1) (get_elem? p.ins (e - 1)) ≡ ok tt = rw t at h in
      final_of_ok name (e - 1) (get_elem? p.ins (e - 1)) z

  IsEnd-tail :
      (m : Text) (q pc e : ℕ) (ls : List (Text × ℕ))
      → q ≤ pc
      → IsEnd p ((m, q) ∷ ls) pc e
      → IsEnd p ls pc e
  IsEnd-tail m q pc e ls l h = record {
    after = h.after;
    place = elim h.place [
      | inl (n, inl s) ↦ let z : q ≡ e = ap (λ x. x.1) s in absurd (omega (arith, h.after))
      | inl (n, inr s) ↦ inl (n, s)
      | inr (a, b) ↦ inr (a, λ n k s. b n k (inr s))
    ];
    nearest = λ n k s t. h.nearest n k (inr s) t;
  }

  from-le : (pc q : ℕ) (n : Text) (ls : List (Text × ℕ)) → AllFrom pc ls → Elem (n, q) ls → pc ≤ q
  from-le pc q n [] h s = absurd s
  from-le pc q n ((m, k) ∷ ls) h (inl s) = let z : k ≡ q = ap (λ x. x.1) s in omega (arith, h.0)
  from-le pc q n ((m, k) ∷ ls) h (inr s) = from-le pc q n ls h.1 s

  -- The end of a body at the head of a sorted list
  end_of_last : (m : Text) (pc e : ℕ) → IsEnd p ((m, pc) ∷ []) pc e → length p.ins ≡ e
  end_of_last m pc e h = elim h.place [
    | inl (n, inl t) ↦ let z : pc ≡ e = ap (λ x. x.1) t in absurd (omega (arith, h.after))
    | inl (n, inr t) ↦ absurd t
    | inr (a, b) ↦ sym a
  ]

  end_of_head :
      (m n : Text) (pc q e : ℕ) (ls : List (Text × ℕ))
      → AllFrom q ls
      → pc < q
      → IsEnd p ((m, pc) ∷ (n, q) ∷ ls) pc e
      → q ≡ e
  end_of_head m n pc q e ls f l h =
      let near = h.nearest n q (inr (inl refl)) l in
      elim h.place [
        | inl (k, inl t) ↦ let z : pc ≡ e = ap (λ x. x.1) t in absurd (omega (arith, h.after))
        | inl (k, inr (inl t)) ↦ ap (λ x. x.1) t
        | inl (k, inr (inr t)) ↦ omega (arith, near, from-le q e k ls f t)
        | inr (a, b) ↦ absurd (omega (arith, b n q (inr (inl refl))))
      ]

  bodies_end-EndsFinal :
      (ls : List (Text × ℕ)) (n : Text) (pc e : ℕ)
      → bodies_end p ls ≡ ok tt
      → IsSorted ls
      → Elem (n, pc) ls
      → ((m : Text) → Elem (m, pc) ls → is_skip m ≡ false)
      → IsEnd p ls pc e
      → EndsFinal p e
  unfolding bodies_end
  bodies_end-EndsFinal [] n pc e h s t keep z = absurd t
  bodies_end-EndsFinal ((m, q) ∷ ls) n pc e h s (inr t) keep z =
      let (u, a, b) = >>=-eq-ok (body_ends p m q (end_of p ls)) (λ _. bodies_end p ls) h in
      bodies_end-EndsFinal ls n pc e b s.1 t (λ k r. keep k (inr r))
        (IsEnd-tail m q pc e ls (from-le q pc n ls s.0 t) z)
  bodies_end-EndsFinal ((m, q) ∷ []) n pc e h s (inl t) keep z =
      let (u, a, b) = >>=-eq-ok (body_ends p m q (length p.ins)) (λ _. bodies_end p []) h in
      let same : q ≡ pc = ap (λ x. x.1) t in
      let here : body_ends p m pc (length p.ins) ≡ ok tt = rw same at a in
      let w : IsEnd p ((m, pc) ∷ []) pc e = rw same at z in
      let l : length p.ins ≡ e = end_of_last m pc e w in
      body_ends-EndsFinal m pc e (keep m (inl (rw same refl))) z.after (rw l at here)
  bodies_end-EndsFinal ((m, q) ∷ (k, r) ∷ ls) n pc e h s (inl t) keep z =
      let (u, a, b) = >>=-eq-ok (body_ends p m q r) (λ _. bodies_end p ((k, r) ∷ ls)) h in
      let same : q ≡ pc = ap (λ x. x.1) t in
      elim (dec_lt pc r) [
        | yes l ↦
            let here : body_ends p m pc r ≡ ok tt = rw same at a in
            let w : IsEnd p ((m, pc) ∷ (k, r) ∷ ls) pc e = rw same at z in
            let next : r ≡ e = end_of_head m k pc r e ls s.1.0 l w in
            body_ends-EndsFinal m pc e (keep m (inl (rw same refl))) z.after (rw next at here)
        | no l ↦
            let alike : r ≡ pc = omega (arith, s.0.0) in
            bodies_end-EndsFinal ((k, r) ∷ ls) k pc e b s.1 (inl (rw alike refl))
              (λ j w. keep j (inr w)) (IsEnd-tail m q pc e ((k, r) ∷ ls) (omega arith) z)
      ]

-- In a program that is accepted, the body of a label ends with an instruction that never falls
-- through, where the body is not empty and no label at its start is an internal one (`__wskip`). A
-- body ends at the next label, or with the program.
pub check_label_bodies_end_with_ret-EndsFinal :
    (p : Parsed)
    → check_label_bodies_end_with_ret p ≡ ok tt
    → (n : Text) (pc e : ℕ) → Elem (n, pc) p.labels
    → ((m : Text) → Elem (m, pc) p.labels → is_skip m ≡ false)
    → IsEnd p p.labels pc e
    → EndsFinal p e
unfolding check_label_bodies_end_with_ret
check_label_bodies_end_with_ret-EndsFinal p h n pc e t keep z =
    bodies_end-EndsFinal p (sort_by_pc p.labels) n pc e h (sort-IsSorted p.labels)
      ((Elem-sort (n, pc) p.labels).1 t) (λ m s. keep m ((Elem-sort (m, pc) p.labels).0 s))
      (record {
        after = z.after;
        place = elim z.place [
          | inl (k, s) ↦ inl (k, (Elem-sort (k, e) p.labels).1 s)
          | inr (a, b) ↦ inr (a, λ k q s. b k q ((Elem-sort (k, q) p.labels).0 s))
        ];
        nearest = λ k q s l. z.nearest k q ((Elem-sort (k, q) p.labels).0 s) l;
      })
