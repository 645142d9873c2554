-- ===== src/Trans/Emit/Kept.antt =====
-- trans/src/emit.rs: assertions on the emitter: no panic, the same function and open loops, and
-- how many labels and slots it takes.
pub mod Bodies
pub mod Lists
pub mod Programs
use nmerkar.Base.{
  length, ℕ, zero, suc, ◌+◌, ◌≤◌, ◌≡◌, refl, sym, ap, ◌∙◌, arith, Bool, true, false, ◌&&◌, List, [],
  ◌∷◌, Option, none, some, Text, codes, contains, if◌then◌else◌, all, and_iff,
}
use nmerkar.Base.Results.{Result, ok, err}
use nmerkar.Trans.Token.{Fault, failed_at, failed, panicked, out_of_fuel}
use nmerkar.Trans.Run.{pure, fail, ◌>>=◌, ◌>>◌, get, modify, lift}
use nmerkar.Trans.Syntax.{
  Expr, Declarator, ForInit, init_decl, init_expr, Stmt, decl, return, if_then, if_else, while,
  do_while, for, break, continue, block, expr, empty, Stmts, no_stmts, stmt, contains_return,
}
use nmerkar.Trans.Parser.Formed.{
  formed_expr, formed_option, formed_decl, formed_init, formed_stmt, formed_stmts,
}
use nmerkar.Trans.Emit.{
  FnCtx, ListCtx, label_body, Buf, empty_buf, Env, Emit, on_emitter, on_ctx, fresh_label,
  fresh_slot, push_loop, pop_loop, with_guards, with_hoisted,
}
use nmerkar.Trans.Emit.Exprs.{emit_expr}
use nmerkar.Trans.Emit.Stmts.{
  put_expr, bind_slot, declare, put_init, put_decls, Emits, done, return_stmt, guarded, returned,
  round, put_body, loop_body, put_if, put_if_else, put_while, put_do_while, put_for_init,
  put_for_cond, put_for_post, put_for, put_stmt, put_stmts,
}
use nmerkar.Trans.Emit.Words.{builtins}
use nmerkar.Trans.Emit.Safe.{Positioned, emit_expr-Positioned}

-- So many labels and slots have been taken, and the function and its open loops are the same.
pub record Kept (k m : ℕ) (v w : Env) : Type 0 where
  pub labels : w.emitter.next_label ≡ v.emitter.next_label + k
  pub slots : w.emitter.next_slot ≡ v.emitter.next_slot + m
  pub loops : w.ctx.loops ≡ v.ctx.loops
  pub main : w.ctx.is_main ≡ v.ctx.is_main

pub Kept-refl : (v : Env) → Kept 0 0 v v
Kept-refl v = record { labels = omega arith; slots = omega arith; loops = refl; main = refl }

pub Kept-trans :
    {k m k2 m2 : ℕ} (u v w : Env) → Kept k m u v → Kept k2 m2 v w → Kept (k + k2) (m + m2) u w
Kept-trans u v w a b = record {
  labels = omega (arith, a.labels, b.labels);
  slots = omega (arith, a.slots, b.slots);
  loops = b.loops ∙ a.loops;
  main = b.main ∙ a.main;
}

module _ {A : Type 0} where
  -- An end that is no panic, from the state `v`.
  abbrev pub Ends : ℕ → ℕ → Env → Result Fault (A × Env) → Type 0
  Ends k m v (ok (a, w)) = Kept k m v w
  Ends k m v (err (failed e)) = Unit {0}
  Ends k m v (err panicked) = ⊥
  Ends k m v (err out_of_fuel) = ⊥

  pub record Keeps (k m : ℕ) (p : Emit A) : Type 0 where
    pub run : (v : Env) → Ends k m v (p v)

  -- The same counts, added up otherwise.
  pub exactly : {k m k2 m2 : ℕ} {p : Emit A} → Keeps k m p → k ≡ k2 → m ≡ m2 → Keeps k2 m2 p
  exactly {p} h a b = rw (a, b) at h

  pub Ends-trans :
      {k m : ℕ} (k2 m2 : ℕ) (u v : Env) (r : Result Fault (A × Env))
      → Kept k m u v
      → Ends k2 m2 v r
      → Ends (k + k2) (m + m2) u r
  Ends-trans k2 m2 u v (ok (a, w)) h k = Kept-trans u v w h k
  Ends-trans k2 m2 u v (err (failed e)) h k = tt
  Ends-trans k2 m2 u v (err panicked) h k = k
  Ends-trans k2 m2 u v (err out_of_fuel) h k = k

  pub pure-Keeps : (a : A) → Keeps 0 0 (pure a)
  pure-Keeps a = record { run = λ v. Kept-refl v }

module _ {A B : Type 0} where
  pub Ends->>= :
      (k m k2 m2 : ℕ) (v : Env) (r : Result Fault (A × Env)) (f : A → Emit B)
      → Ends k m v r
      → ((a : A) → Keeps k2 m2 (f a))
      → Ends (k + k2) (m + m2) v (elim r [ err e ↦ err e | ok r ↦ f r.0 r.1 ])
  Ends->>= k m k2 m2 v (ok (a, w)) f h q = Ends-trans k2 m2 v w (f a w) h ((q a).run w)
  Ends->>= k m k2 m2 v (err (failed e)) f h q = tt
  Ends->>= k m k2 m2 v (err panicked) f h q = h
  Ends->>= k m k2 m2 v (err out_of_fuel) f h q = h

  pub >>=-Keeps :
      {k m k2 m2 : ℕ} {p : Emit A} {f : A → Emit B}
      → Keeps k m p
      → ((a : A) → Keeps k2 m2 (f a))
      → Keeps (k + k2) (m + m2) (p >>= f)
  >>=-Keeps {k} {m} {k2} {m2} {p} {f} h q = record {
    run = λ v. Ends->>= k m k2 m2 v (p v) f (h.run v) q;
  }

pub bind_slot-Keeps : (n s : Text) → Keeps 0 0 (modify (on_ctx (bind_slot n s)))
bind_slot-Keeps n s = record {
  run = λ v. record { labels = omega arith; slots = omega arith; loops = refl; main = refl };
}

pub with_guards-Keeps : (t : Text) → Keeps 0 0 (modify (on_emitter (with_guards t)))
with_guards-Keeps t = record {
  run = λ v. record { labels = omega arith; slots = omega arith; loops = refl; main = refl };
}

pub with_hoisted-Keeps : (t : Text) → Keeps 0 0 (modify (on_emitter (with_hoisted t)))
with_hoisted-Keeps t = record {
  run = λ v. record { labels = omega arith; slots = omega arith; loops = refl; main = refl };
}

pub fresh_label-Keeps : Keeps 1 0 fresh_label
unfolding fresh_label
fresh_label-Keeps = record {
  run = λ v. record { labels = omega arith; slots = omega arith; loops = refl; main = refl };
}

pub fresh_slot-Keeps : Keeps 0 1 fresh_slot
unfolding fresh_slot
fresh_slot-Keeps = record {
  run = λ v. record { labels = omega arith; slots = omega arith; loops = refl; main = refl };
}

lift-Ends : (v : Env) (r : Result Fault Buf) → Positioned r → Ends 0 0 v (lift r v)
lift-Ends v (ok b) h = Kept-refl v
lift-Ends v (err (failed e)) h = tt
lift-Ends v (err panicked) h = h
lift-Ends v (err out_of_fuel) h = h

pub put_expr-Keeps : (e : Expr) (b : Buf) → formed_expr e ≡ true → Keeps 0 0 (put_expr e b)
unfolding put_expr
put_expr-Keeps e b h = record {
  run = λ v. lift-Ends v (emit_expr v.ctx e b) (emit_expr-Positioned v.ctx e b h);
}

unless_fails :
    {A : Type 0} {k m : ℕ} {p : Emit A} (l c : ℕ) (t : Text) (b : Bool)
    → Keeps k m p
    → Keeps k m (if b then fail (failed_at l c t) else p)
unless_fails l c t true h = record { run = λ v. tt }
unless_fails l c t false h = h

pub declare-Keeps : (d : Declarator) → Keeps 0 1 (declare d)
unfolding declare
declare-Keeps d =
    unless_fails _ _ _ (contains builtins d.name)
      (>>=-Keeps fresh_slot-Keeps (λ s. >>=-Keeps (bind_slot-Keeps d.name s) (λ u. pure-Keeps s)))

pub put_init-Keeps :
    (s : Text) (o : Option Expr) (b : Buf) → formed_option o ≡ true → Keeps 0 0 (put_init s o b)
unfolding put_init
put_init-Keeps s none b h = pure-Keeps b
put_init-Keeps s (some e) b h = >>=-Keeps (put_expr-Keeps e b h) (λ c. pure-Keeps _)

pub put_decls-Keeps :
    (ds : List Declarator) (b : Buf)
    → all formed_decl ds ≡ true
    → Keeps 0 (length ds) (put_decls ds b)
unfolding put_decls
put_decls-Keeps [] b h = pure-Keeps b
put_decls-Keeps (d ∷ ds) b h =
    exactly
      (>>=-Keeps (declare-Keeps d) (λ s.
        >>=-Keeps (put_init-Keeps s d.init b ((and_iff _ _).0 h).0)
          (λ c. put_decls-Keeps ds c ((and_iff _ _).0 h).1)))
      refl (ground arith)
