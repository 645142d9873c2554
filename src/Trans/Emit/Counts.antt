-- ===== src/Trans/Emit/Counts.antt =====
-- trans/src/emit.rs: how many labels and slots the emitter takes for a statement.
use nmerkar.Base.{ℕ, ◌+◌, length, Option, none, some, if◌then◌else◌}
use nmerkar.Trans.Syntax.{
  ForInit, init_decl, init_expr, Stmt, decl, return, if_then, if_else, while, do_while, for, block,
  Stmts, no_stmts, stmt, contains_return,
}

-- What follows a statement with a `return` in it becomes a label of its own, which an `if` with
-- two labels reaches.
abbrev pub guards : Stmt → ℕ
guards s = if contains_return s then 2 else 0

-- The list of a block goes in place of the block where a body stands.
abbrev pub body_guards : Stmt → ℕ
body_guards (block ss) = 0
body_guards (return e l c) = 0
body_guards s = guards s

abbrev pub init_slots : Option ForInit → ℕ
init_slots none = 0
init_slots (some (init_decl d)) = 1
init_slots (some (init_expr e)) = 0

-- A label for each `if`, `else`, body and condition; nothing behind a `return` is emitted.
unfoldable mutual
  pub labels_of : Stmt → ℕ
  labels_of (if_then e s) = 1 + (labels_of s + body_guards s)
  labels_of (if_else e s t) = 2 + ((labels_of s + body_guards s) + (labels_of t + body_guards t))
  labels_of (while e s) = 2 + (labels_of s + body_guards s)
  labels_of (do_while s e) = 3 + (labels_of s + body_guards s)
  labels_of (for i c p s) = 3 + (labels_of s + body_guards s)
  labels_of (block ss) = labels_in ss
  labels_of _ = 0

  pub labels_in : Stmts → ℕ
  labels_in no_stmts = 0
  labels_in (stmt (return e l c) ss) = 0
  labels_in (stmt s ss) = labels_of s + (guards s + labels_in ss)

-- A slot for each declared variable
unfoldable mutual
  pub slots_of : Stmt → ℕ
  slots_of (decl ds) = length ds
  slots_of (if_then e s) = slots_of s
  slots_of (if_else e s t) = slots_of s + slots_of t
  slots_of (while e s) = slots_of s
  slots_of (do_while s e) = slots_of s
  slots_of (for i c p s) = init_slots i + slots_of s
  slots_of (block ss) = slots_in ss
  slots_of _ = 0

  pub slots_in : Stmts → ℕ
  slots_in no_stmts = 0
  slots_in (stmt (return e l c) ss) = 0
  slots_in (stmt s ss) = slots_of s + slots_in ss
