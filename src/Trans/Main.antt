-- ===== src/Trans/Main.antt =====
-- trans/src/main.rs: the three phases of the translator.
pub mod Total
use nmerkar.Base.{Text}
use nmerkar.Base.Results.{Result, ◌>>=◌}
use nmerkar.Trans.Token.{Fault}
use nmerkar.Trans.Lexer.{lex}
use nmerkar.Trans.Parser.Programs.{parse_program}
use nmerkar.Trans.Emit.Program.{emit}

-- `run`
unfoldable pub run : Text → Result Fault Text
unfolding lex parse_program emit
run src = do toks ← lex src; prog ← parse_program toks; emit prog
