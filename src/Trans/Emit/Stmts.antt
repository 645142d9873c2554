-- ===== src/Trans/Emit/Stmts.antt =====
-- trans/src/emit.rs: statements, functions and programs. `Run` carries `self` and `ctx`, and the
-- buffer that Rust passes by `&mut` is an argument and a result.
use nmerkar.Base.{
  Bool, false, List, [], ◌∷◌, ◌++◌, Option, none, some, Text, codes, contains, if◌then◌else◌,
  insert,
}
use nmerkar.Trans.Token.{panicked, failed_at}
use nmerkar.Trans.Run.{pure, ◌>>=◌, ◌>>◌, fail, get, modify, lift}
use nmerkar.Trans.Syntax.{
  Expr, Declarator, ForInit, init_decl, init_expr, Stmt, decl, return, if_then, if_else, while,
  do_while, for, break, continue, block, expr, empty, Stmts, no_stmts, stmt, contains_return,
}
use nmerkar.Trans.Emit.{
  FnCtx, ListCtx, label_body, Buf, empty_buf, add_code, Emit, on_emitter, on_ctx, with_hoisted,
  with_guards, fresh_label, fresh_slot, push_loop, pop_loop,
}
use nmerkar.Trans.Emit.Exprs.{emit_expr}
use nmerkar.Trans.Emit.Words.{
  do_start, do_while_out, if_else_out, if_out, while_out, named, return_words, guard_words,
  guard_labels, continue_words, post_labels, with_post, builtin_message, builtins,
}

-- `self.expr(buf, e, ctx)?`
unfoldable pub put_expr : Expr → Buf → Emit Buf
unfolding emit_expr
put_expr e buf = do v ← get; lift (emit_expr v.ctx e buf)

abbrev pub bind_slot : Text → Text → FnCtx → FnCtx
bind_slot name slot c = record {
  is_main = c.is_main;
  slots = insert name slot c.slots;
  loops = c.loops;
}

-- `Emitter::declare`
unfoldable pub declare : Declarator → Emit Text
unfolding fresh_slot
declare d =
    if contains builtins d.name
    then fail (failed_at d.line d.col (builtin_message d.name))
    else (do slot ← fresh_slot; modify (on_ctx (bind_slot d.name slot)); pure slot)

-- `if let Some(init) = &d.init { … }`
unfoldable pub put_init : Text → Option Expr → Buf → Emit Buf
unfolding put_expr
put_init slot none buf = pure buf
put_init slot (some e) buf = do b ← put_expr e buf; pure (add_code (slot ++ codes "!\n") b)

unfoldable pub put_decls : List Declarator → Buf → Emit Buf
unfolding declare put_init
put_decls [] buf = pure buf
put_decls (d ∷ ds) buf = do slot ← declare d; b ← put_init slot d.init buf; put_decls ds b

-- What the emitter does for one statement or a list: the buffer goes on, and whether the list
-- ended in a `return`.
abbrev pub Emits : Type 0
Emits = Buf → ListCtx → Emit (Buf × Bool)

abbrev pub done : Emits
done buf l = pure (buf, false)

-- `Emitter::return_stmt`
unfoldable pub return_stmt : Expr → Emits
unfolding put_expr
return_stmt e buf l = do
  b ← put_expr e buf
  v ← get
  pure (add_code (return_words v.ctx.is_main l).0 b, (return_words v.ctx.is_main l).1)

-- The rest of a list behind a statement that contains a `return`: its own label.
unfoldable pub guarded : Emits → Buf → Emit (Buf × Bool)
unfolding fresh_label
guarded rest buf = do
  c ← fresh_label
  b ← fresh_label
  r ← rest empty_buf label_body
  modify (on_emitter (with_guards (guard_labels c b r)))
  pure (add_code (guard_words c b) buf, false)

abbrev pub returned : Stmt → Option Expr
returned (return e l c) = some e
returned _ = none

-- One round of the loop of `Emitter::stmt_list`: `one` emits `s`, `rest` what follows it.
unfoldable pub round : Stmt → Emits → Emits → Emits
unfolding return_stmt guarded contains_return
round s one rest buf l = elim (returned s) [
  | some e ↦ return_stmt e buf l
  | none ↦ do r ← one buf l; if contains_return s then guarded rest r.0 else rest r.0 l
]

-- `self.stmt_list(buf, stmt_of(s), ctx, ListCtx::LabelBody)`, where `one` emits `s`: a block
-- stands for its list.
unfoldable pub put_body : Stmt → Emits → Buf → Emit (Buf × Bool)
unfolding round
put_body (block ss) one buf = one buf label_body
put_body s one buf = round s one done buf label_body

-- The body of a loop, with its `continue` label on `loops`.
unfoldable pub loop_body : Option Text → Stmt → Emits → Buf → Emit (Buf × Bool)
unfolding put_body
loop_body inc s one buf = do
  modify (on_ctx (push_loop inc))
  r ← put_body s one buf
  modify (on_ctx pop_loop)
  pure r

-- `Stmt::If` without `else`
unfoldable pub put_if : Expr → Stmt → Emits → Buf → Emit (Buf × Bool)
unfolding put_expr fresh_label put_body
put_if e s one buf = do
  b ← put_expr e buf
  t ← fresh_label
  r ← put_body s one empty_buf
  pure (if_out t r b, false)

-- `Stmt::If` with `else`
unfoldable pub put_if_else : Expr → Stmt → Emits → Stmt → Emits → Buf → Emit (Buf × Bool)
unfolding put_expr fresh_label put_body
put_if_else e s1 one s2 two buf = do
  b ← put_expr e buf
  t ← fresh_label
  f ← fresh_label
  r ← put_body s1 one empty_buf
  q ← put_body s2 two empty_buf
  pure (if_else_out t f r q b, false)

-- `Stmt::While`
unfoldable pub put_while : Expr → Stmt → Emits → Buf → Emit (Buf × Bool)
unfolding put_expr fresh_label loop_body
put_while e s one buf = do
  c ← fresh_label
  b ← fresh_label
  k ← put_expr e empty_buf
  r ← loop_body none s one empty_buf
  pure (while_out c b k r buf, false)

-- `Stmt::DoWhile`
unfoldable pub put_do_while : Stmt → Emits → Expr → Buf → Emit (Buf × Bool)
unfolding put_expr fresh_label loop_body
put_do_while s one e buf = do
  df ← fresh_label
  c ← fresh_label
  b ← fresh_label
  r ← loop_body none s one (do_start df)
  k ← put_expr e empty_buf
  pure (do_while_out df c b k r buf, false)

unfoldable pub put_for_init : Option ForInit → Buf → Emit Buf
unfolding declare put_init put_expr
put_for_init (some (init_decl d)) buf = do slot ← declare d; put_init slot d.init buf
put_for_init (some (init_expr e)) buf = do b ← put_expr e buf; pure (add_code (codes "\n") b)
put_for_init none buf = pure buf

unfoldable pub put_for_cond : Option Expr → Emit Buf
unfolding put_expr
put_for_cond (some e) = put_expr e empty_buf
put_for_cond none = pure (add_code (codes "1 ") empty_buf)

unfoldable pub put_for_post : Option Expr → Emit Buf
unfolding put_expr
put_for_post (some e) = put_expr e empty_buf
put_for_post none = pure empty_buf

-- `Stmt::For`
unfoldable pub put_for :
    Option ForInit → Option Expr → Option Expr → Stmt → Emits → Buf → Emit (Buf × Bool)
unfolding put_for_init put_for_cond put_for_post fresh_label loop_body
put_for i e p s one buf = do
  start ← put_for_init i buf
  c ← fresh_label
  b ← fresh_label
  n ← fresh_label
  k ← put_for_cond e
  r ← loop_body (some (named (codes "n") n)) s one empty_buf
  q ← put_for_post p
  modify (on_emitter (with_hoisted (post_labels n q)))
  pure (while_out c b k (with_post (named (codes "n") n) r) start, false)

-- `Emitter::stmt` and `Emitter::stmt_list`. A statement's flag is that of the list of a block,
-- which `put_body` reads, and false otherwise; `round` drops it, as `Emitter::stmt` does.
unfoldable mutual
  unfolding put_decls put_expr put_if put_if_else put_while put_do_while put_for round

  pub put_stmt : Stmt → Emits
  put_stmt (decl ds) buf l = do b ← put_decls ds buf; pure (b, false)
  put_stmt (expr e) buf l = do b ← put_expr e buf; pure (add_code (codes "\n") b, false)
  put_stmt empty buf l = pure (buf, false)
  put_stmt (break x y) buf l = pure (add_code (codes "break\n") buf, false)
  put_stmt (continue x y) buf l = do
    v ← get
    pure (add_code (continue_words v.ctx.loops) buf, false)
  put_stmt (block ss) buf l = put_stmts ss buf l
  put_stmt (return e x y) buf l = fail panicked
  put_stmt (if_then e s) buf l = put_if e s (put_stmt s) buf
  put_stmt (if_else e s t) buf l = put_if_else e s (put_stmt s) t (put_stmt t) buf
  put_stmt (while e s) buf l = put_while e s (put_stmt s) buf
  put_stmt (do_while s e) buf l = put_do_while s (put_stmt s) e buf
  put_stmt (for i e p s) buf l = put_for i e p s (put_stmt s) buf

  pub put_stmts : Stmts → Emits
  put_stmts no_stmts buf l = pure (buf, false)
  put_stmts (stmt s ss) buf l = round s (put_stmt s) (put_stmts ss) buf l
