-- ===== src/Checker/Exits/Shapes.antt =====
-- comp/src/parse.rs: the bodies of loops and the entries of functions, by the instructions around
-- them.
use nmerkar.Base.{ℕ, suc, ◌≡◌, Bool, true, false, List, get_elem?, some, Text, lookup, Elem}
use nmerkar.Checker.Program.{
  Ins, push_addr, for_loop, while_loop, if_true, if_else, call, weave, WeaveMeta, Parsed,
}
use nmerkar.Checker.Exits.{weave_pcs}

-- The instruction at a place
abbrev pub At : Parsed → ℕ → Ins → Type 0
At p k ins = get_elem? p.ins k ≡ some ins

-- A label whose address stands right in front of a loop: the body of a `for`, and the body or the
-- test of a `while`, which stand one and two places in front of it.
pub data LoopBody (p : Parsed) (f : ℕ) : Type 0 where
  of_for :
      (k : ℕ) (l : Text)
      → At p k (push_addr l)
      → At p (suc k) for_loop
      → lookup l p.labels ≡ some f
      → LoopBody p f
  of_while :
      (k : ℕ) (l : Text)
      → At p k (push_addr l)
      → At p (suc k) while_loop
      → lookup l p.labels ≡ some f
      → LoopBody p f
  of_while_second :
      (k : ℕ) (l : Text)
      → At p k (push_addr l)
      → At p (suc (suc k)) while_loop
      → lookup l p.labels ≡ some f
      → LoopBody p f

-- The instructions that take the address in front of them as a body, and those that take two.
abbrev pub takes_one : Ins → Bool
takes_one if_true = true
takes_one if_else = true
takes_one for_loop = true
takes_one while_loop = true
takes_one _ = false

abbrev pub takes_two : Ins → Bool
takes_two if_else = true
takes_two while_loop = true
takes_two _ = false

-- A label that is called, that is a task, or whose address is pushed as a value.
pub data FnEntry (p : Parsed) (f : ℕ) : Type 0 where
  called : (k : ℕ) (l : Text) → At p k (call l) → lookup l p.labels ≡ some f → FnEntry p f
  woven : (k : ℕ) (ts : List WeaveMeta) → At p k (weave ts) → Elem f (weave_pcs ts) → FnEntry p f
  pushed :
      (k : ℕ) (l : Text)
      → At p k (push_addr l)
      → ((x : Ins) → At p (suc k) x → takes_one x ≡ false)
      → ((m : Text) (x : Ins)
          → At p (suc k) (push_addr m)
          → At p (suc (suc k)) x
          → takes_two x ≡ false)
      → lookup l p.labels ≡ some f
      → FnEntry p f
