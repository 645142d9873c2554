-- ===== src/Trans/Main/Total.antt =====
-- trans/src/main.rs: the translator on any text.
use nmerkar.Base.{List, Text}
use nmerkar.Base.Results.{Result, ok, err, ◌>>=◌}
use nmerkar.Trans.Token.{Token, Fault, failed, panicked, out_of_fuel}
use nmerkar.Trans.Syntax.{Program}
use nmerkar.Trans.Lexer.{lex}
use nmerkar.Trans.Lexer.Streams.{LexOk, lex-LexOk}
use nmerkar.Trans.Parser.Programs.{parse_program}
use nmerkar.Trans.Parser.Reads.Programs.{ParseOk, parse_program-ParseOk}
use nmerkar.Trans.Emit.Program.{emit}
use nmerkar.Trans.Emit.Safe.{Positioned}
use nmerkar.Trans.Emit.Kept.Programs.{emit-Positioned}
use nmerkar.Trans.Main.{run}

parsed : (r : Result Fault Program) → ParseOk r → Positioned (r >>= emit)
parsed (ok p) h = emit-Positioned p h
parsed (err (failed e)) h = tt
parsed (err panicked) h = h
parsed (err out_of_fuel) h = h

lexed :
    (r : Result Fault (List Token)) → LexOk r → Positioned (r >>= λ ts. parse_program ts >>= emit)
lexed (ok ts) h = parsed (parse_program ts) (parse_program-ParseOk ts h)
lexed (err (failed e)) h = tt
lexed (err panicked) h = h
lexed (err out_of_fuel) h = h

-- The translator ends on every text, with the translated program or with a positioned error: no
-- loop of the scanner or the parser runs on, no token is read that is not there, no slice is out
-- of range, and no statement reaches an `unreachable!`.
pub run-Positioned : (src : Text) → Positioned (run src)
unfolding run
run-Positioned src = lexed (lex src) (lex-LexOk src)
