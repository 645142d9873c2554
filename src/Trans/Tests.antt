-- ===== src/Trans/Tests.antt =====
-- The unit tests of trans/src, and the theorems about it at small programs.
use nmerkar.Trans.Lexer
use nmerkar.Base.{
  false, ◌≡◌, refl, true, List, [], ◌∷◌, ◌++◌, Text, codes, starts_with, text_eq, contains, lookup,
  insert,
}
use nmerkar.Base.Results.{Result, ok, err}
use nmerkar.Trans.Token.{
  Fault, Token, Kind, int, ident, punct, eof, failed_at, is_punct, is_ident, is_type_word,
}
use nmerkar.Trans.Lexer.{lex, bumps}
use nmerkar.Trans.Syntax.{
  contains_return, Expr, var, post, up, call, no_args, arg, while, break, block, expr, Stmts,
  no_stmts, stmt,
}
use nmerkar.Trans.Emit.{slot_of, FnCtx, Env, new_emitter, empty_buf, fn_body}
use nmerkar.Base.Decimal.{decimal}
use nmerkar.Trans.Parser.Levels.{
  or_level, and_level, bit_or_level, bit_xor_level, bit_and_level, equality_level, relational_level,
  shift_level, additive_level, multiplicative_level,
}
use nmerkar.Trans.Lexer.Streams.{LexOk, lex-LexOk}
use nmerkar.Trans.Emit.Program.{prelude}
use nmerkar.Trans.Emit.Exprs.{decode_char, emit_expr}
use nmerkar.Trans.Parser.Formed.{formed_expr, formed_stmts}
use nmerkar.Trans.Emit.Stmts.{put_stmts}
use nmerkar.Trans.Emit.Counts.{labels_in, slots_in}
use nmerkar.Trans.Emit.Kept.{Ends}
use nmerkar.Trans.Emit.Kept.Lists.{put_stmts-Ends}
use nmerkar.Trans.Emit.Resolves.{resolves, Decides, emit_expr-Decides}
use nmerkar.Trans.Emit.Safe.{Positioned}
use nmerkar.Trans.Main.{run}
use nmerkar.Trans.Main.Total.{run-Positioned}

abbrev token_texts : List Token → List Text
token_texts [] = []
token_texts (t ∷ ts) = t.text ∷ token_texts ts

abbrev texts : Result Fault (List Token) → List Text
texts (ok ts) = token_texts ts
texts (err e) = []

skips_comments_and_preprocessor :
    texts (lex (codes "// line\n/* block * still */ #include <x>\nint")) ≡ codes "int" ∷ [] ∷ []
unfolding lex Lexer.bump bumps starts_with
skips_comments_and_preprocessor = refl

lexes_multichar_ops_longest_first :
    texts (lex (codes "a <<= b <<= c"))
    ≡ codes "a" ∷ codes "<<=" ∷ codes "b" ∷ codes "<<=" ∷ codes "c" ∷ [] ∷ []
unfolding lex Lexer.bump bumps starts_with
lexes_multichar_ops_longest_first = refl

lexes_hex_and_strings :
    texts (lex (codes "0x1F \"a\\\"b\" 'z'"))
    ≡ codes "0x1F" ∷ codes "\"a\\\"b\"" ∷ codes "'z'" ∷ [] ∷ []
unfolding lex Lexer.bump bumps starts_with
lexes_hex_and_strings = refl

rejects_unterminated_string :
    lex (codes "\n \"abc") ≡ err (failed_at 2 2 (codes "unterminated string literal"))
unfolding lex Lexer.bump bumps starts_with
rejects_unterminated_string = refl

rejects_division :
    run (codes "int main() { a / b; }") ≡ err (failed_at 1 16 (codes "no division in subset"))
unfolding run Lexer.bump bumps starts_with text_eq contains is_punct is_ident is_type_word decimal
    lookup insert contains_return prelude decode_char slot_of or_level and_level bit_or_level
    bit_xor_level bit_and_level equality_level relational_level shift_level additive_level
    multiplicative_level
rejects_division = refl

rejects_break : run (codes "int f() { break; }") ≡ err (failed_at 1 11 (codes "break outside loop"))
unfolding run Lexer.bump bumps starts_with text_eq contains is_punct is_ident is_type_word decimal
    lookup insert contains_return prelude decode_char slot_of or_level and_level bit_or_level
    bit_xor_level bit_and_level equality_level relational_level shift_level additive_level
    multiplicative_level
rejects_break = refl

rejects_undefined :
    run (codes "int f() { x; }") ≡ err (failed_at 1 11 (codes "undefined variable: x"))
unfolding run Lexer.bump bumps starts_with text_eq contains is_punct is_ident is_type_word decimal
    lookup insert contains_return prelude decode_char slot_of or_level and_level bit_or_level
    bit_xor_level bit_and_level equality_level relational_level shift_level additive_level
    multiplicative_level
rejects_undefined = refl

abbrev registers_text : Text
registers_text = codes "0 rv! 0 fr! 0 frv! 0 pt!\nret\n"

early_return_guards_remainder :
    run (codes "int f(int n) { if (n) { return 1; } return 0; }")
    ≡ ok (
        prelude
        ++ (registers_text
            ++ codes
                "f:\nv0!\nv0 i1 if\nfr c2 b3 if_else\nfr rv mul frv! 0 fr! ret frv\ni1:\n1 rv! 1 fr! 0 ret\nb3:\n0 rv! 1 fr! 0 ret\nc2:\n0 ret\n"))
unfolding run Lexer.bump bumps starts_with text_eq contains is_punct is_ident is_type_word decimal
    lookup insert contains_return prelude decode_char slot_of or_level and_level bit_or_level
    bit_xor_level bit_and_level equality_level relational_level shift_level additive_level
    multiplicative_level
early_return_guards_remainder = refl

abbrev small : Text
small = codes "int f(int n) { for (int i = 0; i < n; i++) { if (i == 3) break; } return n; }"

abbrev token : Kind → Text → Token
token k t = record { kind = k; text = t; line = 1; col = 1 }

-- `int f() { while (1) break; }`
abbrev small_tokens : List Token
small_tokens =
    token ident (codes "int")
    ∷ token ident (codes "f")
    ∷ token punct (codes "(")
    ∷ token punct (codes ")")
    ∷ token punct (codes "{")
    ∷ token ident (codes "while")
    ∷ token punct (codes "(")
    ∷ token int (codes "1")
    ∷ token punct (codes ")")
    ∷ token ident (codes "break")
    ∷ token punct (codes ";")
    ∷ token punct (codes "}")
    ∷ token eof []
    ∷ []

run-Positioned_example : Positioned (run small)
run-Positioned_example = run-Positioned small

lex-LexOk_example : LexOk (lex small)
lex-LexOk_example = lex-LexOk small

-- `while (x) { break; } x++;`
abbrev small_stmts : Stmts
small_stmts =
    stmt (while (var (codes "x") 1 1) (block (stmt (break 1 1) no_stmts)))
      (stmt (expr (post (codes "x") up 1 1)) no_stmts)

abbrev small_ctx : FnCtx
small_ctx = record { is_main = false; slots = (codes "x", codes "v0") ∷ []; loops = [] }

abbrev small_env : Env
small_env = record { emitter = new_emitter; ctx = small_ctx }

-- The `while` takes two labels.
small_counts : (labels_in small_stmts ≡ 2) × (slots_in small_stmts ≡ 0)
unfolding labels_in slots_in contains_return
small_counts = (refl, refl)

small_stmts_formed : formed_stmts false small_stmts ≡ true
unfolding formed_stmts
small_stmts_formed = refl

put_stmts-Ends_example :
    Ends
      (labels_in small_stmts)
      (slots_in small_stmts)
      small_env
      (put_stmts small_stmts empty_buf fn_body small_env)
put_stmts-Ends_example =
    put_stmts-Ends false small_stmts empty_buf fn_body small_env small_stmts_formed

-- `printf(x)`
abbrev small_call : Expr
small_call = call (codes "printf") (arg (var (codes "x") 1 8) no_args) 1 1

small_call_formed : formed_expr small_call ≡ true
unfolding formed_expr
small_call_formed = refl

emit_expr-Decides_example :
    Decides (resolves small_ctx small_call) (emit_expr small_ctx small_call empty_buf)
emit_expr-Decides_example = emit_expr-Decides small_ctx small_call empty_buf small_call_formed
