-- ===== src/Trans/Syntax.antt =====
-- trans/src/ast.rs: the syntax tree.
use nmerkar.Base.{ℕ, Bool, true, false, ◌||◌, List, Option, Text}

-- `BinOp`
pub data BinOp : Type 0 where
  add sub mul shl shr lt le gt ge eq ne bit_and bit_xor bit_or : BinOp

-- `LogicOp`
pub data LogicOp : Type 0 where
  and or : LogicOp

-- `UnOp`
pub data UnOp : Type 0 where
  neg not bit_not : UnOp

-- The two values of `delta`.
pub data Delta : Type 0 where
  up down : Delta

-- The streams of `ExprKind::Stream`.
pub data Stream : Type 0 where
  stdout stdin stderr : Stream

-- `Expr` with its `ExprKind`: the two numbers of a constructor are `line` and `col`.
mutual
  pub data Expr : Type 0 where
    int_lit : Text → ℕ → ℕ → Expr
    str_lit : Text → ℕ → ℕ → Expr
    char_lit : Text → ℕ → ℕ → Expr
    var : Text → ℕ → ℕ → Expr
    assign : Text → Option BinOp → Expr → ℕ → ℕ → Expr
    binary : BinOp → Expr → Expr → ℕ → ℕ → Expr
    logical : LogicOp → Expr → Expr → ℕ → ℕ → Expr
    unary : UnOp → Expr → ℕ → ℕ → Expr
    pre : Text → Delta → ℕ → ℕ → Expr
    post : Text → Delta → ℕ → ℕ → Expr
    call : Text → Args → ℕ → ℕ → Expr
    index : Text → Expr → ℕ → ℕ → Expr
    argc : ℕ → ℕ → Expr
    stream : Stream → ℕ → ℕ → Expr
    argv : Expr → ℕ → ℕ → Expr
    byte : Expr → ℕ → ℕ → Expr
    null : ℕ → ℕ → Expr
    eof_lit : ℕ → ℕ → Expr

  pub data Args : Type 0 where
    no_args : Args
    arg : Expr → Args → Args

-- `Declarator`
pub record Declarator : Type 0 where
  pub name : Text
  pub init : Option Expr
  pub line : ℕ
  pub col : ℕ

-- `ForInit`
pub data ForInit : Type 0 where
  init_decl : Declarator → ForInit
  init_expr : Expr → ForInit

-- `Stmt`; an `if` with and one without `else` are two constructors.
mutual
  pub data Stmt : Type 0 where
    decl : List Declarator → Stmt
    return : Expr → ℕ → ℕ → Stmt
    if_then : Expr → Stmt → Stmt
    if_else : Expr → Stmt → Stmt → Stmt
    while : Expr → Stmt → Stmt
    do_while : Stmt → Expr → Stmt
    for : Option ForInit → Option Expr → Option Expr → Stmt → Stmt
    break : ℕ → ℕ → Stmt
    continue : ℕ → ℕ → Stmt
    block : Stmts → Stmt
    expr : Expr → Stmt
    empty : Stmt

  pub data Stmts : Type 0 where
    no_stmts : Stmts
    stmt : Stmt → Stmts → Stmts

-- `Stmt::contains_return`
unfoldable mutual
  pub contains_return : Stmt → Bool
  contains_return (return e l c) = true
  contains_return (if_then e s) = contains_return s
  contains_return (if_else e s t) = contains_return s || contains_return t
  contains_return (while e s) = contains_return s
  contains_return (do_while s e) = contains_return s
  contains_return (for i c p s) = contains_return s
  contains_return (block ss) = any_contains_return ss
  contains_return _ = false

  pub any_contains_return : Stmts → Bool
  any_contains_return no_stmts = false
  any_contains_return (stmt s ss) = contains_return s || any_contains_return ss

-- `Function`
pub record Function : Type 0 where
  pub name : Text
  pub params : List Text
  pub body : Stmts
  pub line : ℕ
  pub col : ℕ

-- `Program`
abbrev pub Program : Type 0
Program = List Function
