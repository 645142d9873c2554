-- ===== src/Trans/Parser/Formed.antt =====
-- Syntax trees that the emitter can take: `break` and `continue` stand in loops, and a character
-- literal begins and ends with a quote.
use nmerkar.Base.{Bool, true, false, ◌&&◌, Option, none, some, all}
use nmerkar.Trans.Syntax.{
  Expr, char_lit, assign, binary, logical, unary, call, index, argv, byte, Args, no_args, arg,
  Declarator, ForInit, init_decl, init_expr, Stmt, decl, return, if_then, if_else, while, do_while,
  for, break, continue, block, expr, empty, Stmts, no_stmts, stmt, Program,
}
use nmerkar.Trans.Lexer.Shapes.{is_quoted}

unfoldable mutual
  pub formed_expr : Expr → Bool
  formed_expr (char_lit t l c) = is_quoted b'\'' t
  formed_expr (assign n op e l c) = formed_expr e
  formed_expr (binary op x y l c) = formed_expr x && formed_expr y
  formed_expr (logical op x y l c) = formed_expr x && formed_expr y
  formed_expr (unary op e l c) = formed_expr e
  formed_expr (call n args l c) = formed_args args
  formed_expr (index n e l c) = formed_expr e
  formed_expr (argv e l c) = formed_expr e
  formed_expr (byte e l c) = formed_expr e
  formed_expr _ = true

  pub formed_args : Args → Bool
  formed_args no_args = true
  formed_args (arg e es) = formed_expr e && formed_args es

abbrev pub formed_option : Option Expr → Bool
formed_option none = true
formed_option (some e) = formed_expr e

abbrev pub formed_decl : Declarator → Bool
formed_decl d = formed_option d.init

abbrev pub formed_init : Option ForInit → Bool
formed_init none = true
formed_init (some (init_decl d)) = formed_decl d
formed_init (some (init_expr e)) = formed_expr e

-- The first argument says whether a loop is open.
unfoldable mutual
  unfolding formed_expr

  pub formed_stmt : Bool → Stmt → Bool
  formed_stmt inside (decl ds) = all formed_decl ds
  formed_stmt inside (return e l c) = formed_expr e
  formed_stmt inside (if_then e s) = formed_expr e && formed_stmt inside s
  formed_stmt inside (if_else e s t) =
      formed_expr e && (formed_stmt inside s && formed_stmt inside t)
  formed_stmt inside (while e s) = formed_expr e && formed_stmt true s
  formed_stmt inside (do_while s e) = formed_stmt true s && formed_expr e
  formed_stmt inside (for i c p s) =
      formed_init i && (formed_option c && (formed_option p && formed_stmt true s))
  formed_stmt inside (break l c) = inside
  formed_stmt inside (continue l c) = inside
  formed_stmt inside (block ss) = formed_stmts inside ss
  formed_stmt inside (expr e) = formed_expr e
  formed_stmt inside empty = true

  pub formed_stmts : Bool → Stmts → Bool
  formed_stmts inside no_stmts = true
  formed_stmts inside (stmt s ss) = formed_stmt inside s && formed_stmts inside ss

unfoldable pub formed_program : Program → Bool
unfolding formed_stmts
formed_program = all (λ f. formed_stmts false f.body)
