-- ===== src/Trans/Emit/Program.antt =====
-- trans/src/emit.rs: functions and programs.
use nmerkar.Base.{Bool, false, List, [], ◌∷◌, ◌++◌, Text, codes, text_eq, if◌then◌else◌}
use nmerkar.Base.Results.{Result, ok, err}
use nmerkar.Trans.Token.{Fault}
use nmerkar.Trans.Run.{pure, ◌>>=◌, ◌>>◌, modify}
use nmerkar.Trans.Syntax.{Function, Program}
use nmerkar.Trans.Emit.{
  FnCtx, fn_body, Buf, empty_buf, new_emitter, Env, Emit, on_emitter, on_ctx, with_out,
  clear_hoisted, fresh_slot,
}
use nmerkar.Trans.Emit.Stmts.{put_stmts, bind_slot}

-- `PRELUDE`
unfoldable pub prelude : Text
prelude =
    codes "import c\"printf\"(ptr,...)->int\n"
    ++ (codes "import c\"fprintf\"(ptr,ptr,...)->int\n"
        ++ (codes "import c\"fputc\"(int,ptr)->int\n"
            ++ (codes "import c\"ungetc\"(int,ptr)->int\n"
                ++ (codes "import c\"putchar\"(int)->int\n"
                    ++ (codes "import c\"getchar\"()->int\n"
                        ++ (codes "import c\"fputs\"(ptr,ptr)->int\n"
                            ++ (codes "import c\"fwrite\"(ptr,int,int,ptr)->int\n"
                                ++ (codes "import c\"strcmp\"(ptr,ptr)->int\n"
                                    ++ (codes "import c\"strncmp\"(ptr,ptr,int)->int\n"
                                        ++ (codes "import c\"strcpy\"(ptr,ptr)->ptr\n"
                                            ++ (codes "import c\"exit\"(int)->void\n"
                                                ++ (codes
                                                      "import c\"fread\"(ptr,int,int,ptr)->int\n"
                                                    ++ (codes "import c\"fopen\"(ptr,ptr)->ptr\n"
                                                        ++ (codes "import c\"fclose\"(ptr)->int\n"
                                                            ++ (codes
                                                            "import c\"fgetc\"(ptr)->int\n"
                                                            ++ (codes
                                                            "import c\"strstr\"(ptr,ptr)->ptr\n"
                                                            ++ (codes "extern \"stdout\"\n"
                                                            ++ (codes "extern \"stdin\"\n"
                                                            ++ codes
                                                            "extern \"stderr\"\n"))))))))))))))))))

-- The slots of the parameters, and the binds of the header.
unfoldable pub bind_params : List Text → Emit Text
unfolding fresh_slot
bind_params [] = pure []
bind_params (p ∷ ps) = do
  slot ← fresh_slot
  modify (on_ctx (bind_slot p slot))
  rest ← bind_params ps
  pure (slot ++ (codes "!\n" ++ rest))

abbrev pub new_ctx : Bool → FnCtx
new_ctx is_main = record { is_main = is_main; slots = []; loops = [] }

abbrev pub header : Bool → Text → Text
header is_main name = if is_main then codes "entry:\n" else (name ++ codes ":\n")

abbrev pub epilogue : Bool → Text
epilogue is_main =
    if is_main then codes "0 'exit\nret\n" else codes "fr rv mul frv! 0 fr! ret frv\n"

-- `self.out.push_str(…)` of the header, the code, the epilogue and the labels of a function.
abbrev pub flush : Text → Text → Buf → Env → Env
flush head tail b v =
    on_emitter
      (with_out (
        head
        ++ (b.code ++ (tail ++ (b.labels ++ (v.emitter.hoisted_guards ++ v.emitter.hoisted))))))
      v

-- `Emitter::function`
unfoldable pub put_function : Function → Emit (Unit {0})
unfolding bind_params put_stmts
put_function f = do
  modify (on_ctx (λ c. new_ctx (text_eq f.name (codes "main"))))
  binds ← if text_eq f.name (codes "main") then pure [] else bind_params f.params
  modify (on_emitter clear_hoisted)
  r ← put_stmts f.body empty_buf fn_body
  modify (
      flush (header (text_eq f.name (codes "main")) f.name ++ binds)
        (epilogue (text_eq f.name (codes "main"))) r.0)

unfoldable pub put_functions : List Function → Emit (Unit {0})
unfolding put_function
put_functions [] = pure tt
put_functions (f ∷ fs) = do put_function f; put_functions fs

abbrev pub registers : List Function → Text
registers [] = []
registers (f ∷ fs) = codes "0 rv! 0 fr! 0 frv! 0 pt!\nret\n"

abbrev pub start : List Function → Env
start fs = record {
  emitter = with_out (registers fs) (with_out prelude new_emitter);
  ctx = new_ctx false;
}

abbrev pub out_of : Result Fault ((Unit {0}) × Env) → Result Fault Text
out_of (ok (u, v)) = ok v.emitter.out
out_of (err e) = err e

-- `emit`
unfoldable pub emit : Program → Result Fault Text
unfolding put_functions
emit fs = out_of (put_functions fs (start fs))
