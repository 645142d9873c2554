-- ===== src/Trans/Emit/Kept/Bodies.antt =====
-- trans/src/emit.rs: the assertions on the emitter of statements.
use nmerkar.Base.{
  ℕ, ◌+◌, ◌≡◌, refl, ap, arith, Bool, true, false, Option, none, some, Text, if◌then◌else◌,
}
use nmerkar.Base.Results.{Result, ok, err}
use nmerkar.Trans.Token.{Fault, failed, panicked, out_of_fuel}
use nmerkar.Trans.Syntax.{
  Expr, Stmt, decl, return, if_then, if_else, while, do_while, for, break, continue, block, expr,
  empty, contains_return, Stmts, stmt,
}
use nmerkar.Trans.Parser.Formed.{formed_expr, formed_stmt}
use nmerkar.Trans.Emit.{
  ListCtx, label_body, Buf, empty_buf, add_code, Env, Emit, on_ctx, push_loop, pop_loop,
  outer_loops,
}
use nmerkar.Trans.Emit.Stmts.{
  Emits, done, return_stmt, guarded, returned, round, put_body, loop_body,
}
use nmerkar.Trans.Emit.Words.{guard_labels, guard_words}
use nmerkar.Trans.Emit.Counts.{guards, body_guards, labels_of, labels_in, slots_of, slots_in}
use nmerkar.Trans.Emit.Kept.{
  Kept-refl, Ends, Keeps, exactly, pure-Keeps, >>=-Keeps, with_guards-Keeps, fresh_label-Keeps,
  put_expr-Keeps,
}

abbrev pub AllKeep : ℕ → ℕ → Emits → Type 0
AllKeep k m one = (b : Buf) (l : ListCtx) → Keeps k m (one b l)

return_stmt-Keeps : (e : Expr) → formed_expr e ≡ true → AllKeep 0 0 (return_stmt e)
unfolding return_stmt
return_stmt-Keeps e h b l =
    >>=-Keeps (put_expr-Keeps e b h) (λ c. record { run = λ v. Kept-refl v })

guarded-Keeps :
    {k m : ℕ} (rest : Emits) (b : Buf) → AllKeep k m rest → Keeps (2 + k) m (guarded rest b)
unfolding guarded
guarded-Keeps rest b h =
    exactly
      (>>=-Keeps fresh_label-Keeps (λ c. >>=-Keeps fresh_label-Keeps (λ m.
        >>=-Keeps (h empty_buf label_body) (λ r.
          >>=-Keeps (with_guards-Keeps (guard_labels c m r))
            (λ u. pure-Keeps (add_code (guard_words c m) b, false))))))
      (omega arith) (omega arith)

-- The rest of a list, guarded or not
rest-Keeps :
    {k m : ℕ} (c : Bool) (rest : Emits) (b : Buf) (l : ListCtx)
    → AllKeep k m rest
    → Keeps ((if c then 2 else 0) + k) m (if c then guarded rest b else rest b l)
rest-Keeps true rest b l h = guarded-Keeps rest b h
rest-Keeps false rest b l h = exactly (h b l) (omega arith) refl

-- One statement keeps the state, or is a `return`, which its list takes.
abbrev pub OneKeeps : Stmt → Emits → Type 0
OneKeeps s one = returned s ≡ none → AllKeep (labels_of s) (slots_of s) one

picked :
    {n q : ℕ} {p : Emit (Buf × Bool)} (b : Buf) (l : ListCtx) (o : Option Expr)
    → o ≡ none
    → Keeps n q p
    → Keeps n q (elim o [ some e ↦ return_stmt e b l | none ↦ p ])
picked b l none e h = h
picked b l (some x) e h = absurd cc

-- A list of one more statement, which is no `return`
round-Keeps :
    {n q : ℕ} (s : Stmt) (one rest : Emits)
    → returned s ≡ none
    → OneKeeps s one
    → AllKeep n q rest
    → AllKeep (labels_of s + (guards s + n)) (slots_of s + q) (round s one rest)
unfolding round
round-Keeps s one rest e k r b l =
    picked b l (returned s) e
      (>>=-Keeps (k e b l) (λ w. rest-Keeps (contains_return s) rest (w.0) l r))

-- A list: nothing behind a `return` is emitted.
pub list-Keeps :
    (inside : Bool) (s : Stmt) (ss : Stmts) (one rest : Emits)
    → formed_stmt inside s ≡ true
    → OneKeeps s one
    → AllKeep (labels_in ss) (slots_in ss) rest
    → AllKeep (labels_in (stmt s ss)) (slots_in (stmt s ss)) (round s one rest)
unfolding labels_in slots_in round formed_stmt
list-Keeps inside (return e x c) ss one rest h k r b l = return_stmt-Keeps e h b l
list-Keeps inside (decl ds) ss one rest h k r b l = round-Keeps (decl ds) one rest refl k r b l
list-Keeps inside (block bs) ss one rest h k r b l = round-Keeps (block bs) one rest refl k r b l
list-Keeps inside (if_then x s) ss one rest h k r b l =
    round-Keeps (if_then x s) one rest refl k r b l
list-Keeps inside (if_else x s t) ss one rest h k r b l =
    round-Keeps (if_else x s t) one rest refl k r b l
list-Keeps inside (while x s) ss one rest h k r b l = round-Keeps (while x s) one rest refl k r b l
list-Keeps inside (do_while s x) ss one rest h k r b l =
    round-Keeps (do_while s x) one rest refl k r b l
list-Keeps inside (for i c p s) ss one rest h k r b l =
    round-Keeps (for i c p s) one rest refl k r b l
list-Keeps inside (break x c) ss one rest h k r b l = round-Keeps (break x c) one rest refl k r b l
list-Keeps inside (continue x c) ss one rest h k r b l =
    round-Keeps (continue x c) one rest refl k r b l
list-Keeps inside (expr x) ss one rest h k r b l = round-Keeps (expr x) one rest refl k r b l
list-Keeps inside empty ss one rest h k r b l = round-Keeps empty one rest refl k r b l

-- A body that is one statement
alone :
    (s : Stmt) (one : Emits) (b : Buf)
    → returned s ≡ none
    → OneKeeps s one
    → Keeps (labels_of s + guards s) (slots_of s) (round s one done b label_body)
alone s one b e k =
    exactly (round-Keeps s one done e k (λ c l. pure-Keeps (c, false)) b label_body) (omega arith)
      (omega arith)

-- The list of a body: a block stands for its list, a `return` ends it.
pub put_body-Keeps :
    (inside : Bool) (s : Stmt) (one : Emits) (b : Buf)
    → formed_stmt inside s ≡ true
    → OneKeeps s one
    → Keeps (labels_of s + body_guards s) (slots_of s) (put_body s one b)
unfolding put_body formed_stmt labels_of slots_of
put_body-Keeps inside (block ss) one b h k = exactly (k refl b label_body) (omega arith) refl
put_body-Keeps inside (return x l c) one b h k = return_stmt-Keeps x h b label_body
put_body-Keeps inside (decl ds) one b h k = alone (decl ds) one b refl k
put_body-Keeps inside (if_then x s) one b h k = alone (if_then x s) one b refl k
put_body-Keeps inside (if_else x s t) one b h k = alone (if_else x s t) one b refl k
put_body-Keeps inside (while x s) one b h k = alone (while x s) one b refl k
put_body-Keeps inside (do_while s x) one b h k = alone (do_while s x) one b refl k
put_body-Keeps inside (for i c p s) one b h k = alone (for i c p s) one b refl k
put_body-Keeps inside (break l c) one b h k = alone (break l c) one b refl k
put_body-Keeps inside (continue l c) one b h k = alone (continue l c) one b refl k
put_body-Keeps inside (expr x) one b h k = alone (expr x) one b refl k
put_body-Keeps inside empty one b h k = alone empty one b refl k

loop_ends :
    (k m : ℕ) (inc : Option Text) (v : Env) (r : Result Fault ((Buf × Bool) × Env))
    → Ends k m (on_ctx (push_loop inc) v) r
    → Ends k m v (elim r [ err e ↦ err e | ok q ↦ ok (q.0, on_ctx pop_loop q.1) ])
loop_ends k m inc v (ok (a, w)) h = record {
  labels = omega (arith, h.labels);
  slots = omega (arith, h.slots);
  loops = ap outer_loops h.loops;
  main = h.main;
}
loop_ends k m inc v (err (failed e)) h = tt
loop_ends k m inc v (err panicked) h = h
loop_ends k m inc v (err out_of_fuel) h = h

-- The loop that the body of a loop opens is closed again.
pub loop_body-Keeps :
    (inc : Option Text) (s : Stmt) (one : Emits) (b : Buf)
    → formed_stmt true s ≡ true
    → OneKeeps s one
    → Keeps (labels_of s + body_guards s) (slots_of s) (loop_body inc s one b)
unfolding loop_body
loop_body-Keeps inc s one b h k = record {
  run = λ v.
      loop_ends _ _ inc v (put_body s one b (on_ctx (push_loop inc) v))
        ((put_body-Keeps true s one b h k).run (on_ctx (push_loop inc) v));
}
