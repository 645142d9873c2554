-- ===== src/Checker/Exits/Tests.antt =====
-- Programs with loops and bodies that end or do not, for the checks of comp/src/parse.rs on both.
use nmerkar.Base.{
  lookup, true, arith, Text, inr, ap, subst, starts_with, strip_prefix, Elem, false, ℕ, ◌≡◌, refl,
  [], ◌∷◌, inl, some, codes,
}
use nmerkar.Base.Int.{pos}
use nmerkar.Base.Results.{ok, err}
use nmerkar.Checker.Program.{while_loop, if_true, break_out, push_i, push_addr, ret, Parsed}
use nmerkar.Checker.Exits.{
  falls_off, outside_loop, is_skip, check_label_bodies_end_with_ret, check_loop_exits_in_loop,
}
use nmerkar.Checker.Exits.Bodies.{IsEnd, EndsFinal, check_label_bodies_end_with_ret-EndsFinal}
use nmerkar.Checker.Exits.Loops.{InLoop, check_loop_exits_in_loop-InLoop}

-- A `while` whose body leaves the loop, behind an entry that ends with `ret`
abbrev looped : Parsed
looped = record {
  ins =
      push_addr (codes "test")
      ∷ push_addr (codes "body")
      ∷ while_loop
      ∷ ret
      ∷ push_i (pos 1)
      ∷ ret
      ∷ break_out
      ∷ [];
  ins_lines = 1 ∷ 1 ∷ 1 ∷ 2 ∷ 3 ∷ 3 ∷ 4 ∷ [];
  labels = (codes "body", 6) ∷ (codes "entry", 0) ∷ (codes "test", 4) ∷ [];
  imports = [];
  exports = [];
  entry_label = some (codes "entry");
  label_params = [];
  param_pcs = [];
}

exits_pass : check_loop_exits_in_loop looped ≡ ok tt
unfolding check_loop_exits_in_loop lookup
exits_pass = refl

check_loop_exits_in_loop-InLoop_example : (f : ℕ) × InLoop looped 6 f
check_loop_exits_in_loop-InLoop_example =
    check_loop_exits_in_loop-InLoop looped exits_pass 6 break_out refl refl

bodies_pass : check_label_bodies_end_with_ret looped ≡ ok tt
unfolding check_label_bodies_end_with_ret strip_prefix
bodies_pass = refl

test-IsEnd : IsEnd looped looped.labels 4 6
test-IsEnd = record {
  after = omega arith;
  place = inl (codes "body", inl refl);
  nearest = λ n q t l. ground arith;
}

not_internal : (m : Text) → Elem (m, 4) looped.labels → is_skip m ≡ false
not_internal m (inl t) = let z : ◌≡◌ {A = ℕ} 6 4 = ap (λ x. x.1) t in absurd (omega arith)
not_internal m (inr (inl t)) = let z : ◌≡◌ {A = ℕ} 0 4 = ap (λ x. x.1) t in absurd (omega arith)
not_internal m (inr (inr (inl t))) =
    let z : codes "test" ≡ m = ap (λ x. x.0) t in
    subst (λ y. is_skip y ≡ false) z (unfold starts_with strip_prefix in refl)
not_internal m (inr (inr (inr t))) = absurd t

check_label_bodies_end_with_ret-EndsFinal_example : EndsFinal looped 6
check_label_bodies_end_with_ret-EndsFinal_example =
    check_label_bodies_end_with_ret-EndsFinal looped bodies_pass (codes "test") 4 6
      (inr (inr (inl refl))) not_internal test-IsEnd

-- A body that does not end, and a `break` outside a loop
abbrev open_end : Parsed
open_end = record looped {
  ins = push_i (pos 1) ∷ break_out ∷ push_i (pos 2) ∷ [];
  labels = (codes "main", 0) ∷ [];
}

rejects_open_end :
    check_label_bodies_end_with_ret open_end ≡ err (falls_off (some 1) (codes "main"))
unfolding check_label_bodies_end_with_ret strip_prefix
rejects_open_end = refl

rejects_break : check_loop_exits_in_loop open_end ≡ err (outside_loop (some 1) true)
unfolding check_loop_exits_in_loop lookup
rejects_break = refl

-- The `break` is the body of the entry's own `if`, and stands outside of every loop. As its label
-- begins behind the body of the loop, the check takes it for a part of that body.
abbrev stray : Parsed
stray = record looped {
  ins =
      push_addr (codes "test")
      ∷ push_addr (codes "body")
      ∷ while_loop
      ∷ push_i (pos 1)
      ∷ push_addr (codes "leave")
      ∷ if_true
      ∷ ret
      ∷ push_i (pos 0)
      ∷ ret
      ∷ ret
      ∷ break_out
      ∷ [];
  ins_lines = 1 ∷ 1 ∷ 1 ∷ 2 ∷ 2 ∷ 2 ∷ 2 ∷ 3 ∷ 3 ∷ 4 ∷ 5 ∷ [];
  labels = (codes "body", 9) ∷ (codes "entry", 0) ∷ (codes "leave", 10) ∷ (codes "test", 7) ∷ [];
}

accepts_stray : check_loop_exits_in_loop stray ≡ ok tt
unfolding check_loop_exits_in_loop lookup
accepts_stray = refl
