-- ===== src/Trans/Emit/Safe.antt =====
-- trans/src/emit.rs: the emitter of expressions does not panic.
use nmerkar.Base.{
  ℕ, ◌≡◌, arith, Bool, true, false, [], ◌∷◌, Option, none, some, Text, if◌then◌else◌, ltb, ◌==◌,
  length, take, lookup, and_iff,
}
use nmerkar.Base.Results.{Result, ok, err, ◌>>=◌}
use nmerkar.Trans.Token.{Fault, failed, panicked, out_of_fuel}
use nmerkar.Trans.Syntax.{
  Expr, int_lit, str_lit, char_lit, var, assign, binary, logical, unary, pre, post, call, index,
  argc, stream, argv, byte, null, eof_lit, Args, no_args, arg,
}
use nmerkar.Trans.Lexer.Shapes.{is_quoted}
use nmerkar.Trans.Parser.Formed.{formed_expr, formed_args}
use nmerkar.Trans.Emit.{FnCtx, Buf, slot_of, slot_result}
use nmerkar.Trans.Emit.Exprs.{
  emit_expr, emit_args, decode_char, decode_inner, value, char_words, after_args, finish_call,
  opcode, vararg_fixed_params, count_args, escape_value, decode_escape,
}

-- A result, or an error with a position.
abbrev pub Positioned : {A : Type 0} → Result Fault A → Type 0
Positioned (ok a) = Unit {0}
Positioned (err (failed e)) = Unit {0}
Positioned (err panicked) = ⊥
Positioned (err out_of_fuel) = ⊥

pub >>=-Positioned :
    {A B : Type 0} (r : Result Fault A) (f : A → Result Fault B)
    → Positioned r
    → ((a : A) → Positioned (f a))
    → Positioned (r >>= f)
>>=-Positioned (ok a) f h k = k a
>>=-Positioned (err (failed e)) f h k = tt
>>=-Positioned (err panicked) f h k = h
>>=-Positioned (err out_of_fuel) f h k = h

slot_result-Positioned : (n : Text) (l c : ℕ) (o : Option Text) → Positioned (slot_result n l c o)
slot_result-Positioned n l c none = tt
slot_result-Positioned n l c (some s) = tt

slot_of-Positioned : (ctx : FnCtx) (n : Text) (l c : ℕ) → Positioned (slot_of ctx n l c)
unfolding slot_of
slot_of-Positioned ctx n l c = slot_result-Positioned n l c (lookup n ctx.slots)

escape-Positioned :
    (l c : ℕ) (b : Buf) (t : Text) (o : Option ℕ)
    → Positioned (char_words l c b (decode_escape t o))
escape-Positioned l c b t none = tt
escape-Positioned l c b t (some v) = tt

if-Positioned :
    {A : Type 0} (b : Bool) (x y : Result Fault A)
    → Positioned x
    → Positioned y
    → Positioned (if b then x else y)
if-Positioned true x y h k = h
if-Positioned false x y h k = k

inner-Positioned : (l c : ℕ) (b : Buf) (t : Text) → Positioned (char_words l c b (decode_inner t))
inner-Positioned l c b [] = tt
inner-Positioned l c b (x ∷ t) = go (x == b'\\') t
  where
    go :
        (q : Bool) (t : Text)
        → Positioned (char_words l c b (if q then decode_escape t (escape_value t) else value x))
    go true t = escape-Positioned l c b t (escape_value t)
    go false t = tt

char-Positioned :
    (l c : ℕ) (b : Buf) (t : Text)
    → is_quoted b'\'' t ≡ true
    → Positioned (char_words l c b (decode_char t))
unfolding decode_char
char-Positioned l c b [] h = absurd (ground (arith, h))
char-Positioned l c b (q ∷ []) h = absurd (ground (arith, h))
char-Positioned l c b (q ∷ x ∷ t) h = inner-Positioned l c b (take (length t) (x ∷ t))

finish_call-Positioned :
    (n : Text) (k l c : ℕ) (b : Buf) (o : Option ℕ) → Positioned (finish_call n k l c b o)
finish_call-Positioned n k l c b none = tt
finish_call-Positioned n k l c b (some x) = if-Positioned (ltb k x) _ _ tt tt

after_args-Positioned :
    (n : Text) (k l c : ℕ) (b : Buf) (o : Option Text) → Positioned (after_args n k l c b o)
after_args-Positioned n k l c b (some w) = tt
after_args-Positioned n k l c b none = finish_call-Positioned n k l c b (vararg_fixed_params n)

mutual
  unfolding emit_expr formed_expr

  expr_safe :
      (ctx : FnCtx) (e : Expr) (b : Buf) → formed_expr e ≡ true → Positioned (emit_expr ctx e b)
  expr_safe ctx (int_lit t l c) b h = tt
  expr_safe ctx (str_lit t l c) b h = tt
  expr_safe ctx (char_lit t l c) b h = char-Positioned l c b t h
  expr_safe ctx (var n l c) b h = >>=-Positioned _ _ (slot_of-Positioned ctx n l c) (λ s. tt)
  expr_safe ctx (assign n op e l c) b h =
      >>=-Positioned _ _ (slot_of-Positioned ctx n l c)
        (λ s. >>=-Positioned _ _ (expr_safe ctx e _ h) (λ b2. tt))
  expr_safe ctx (binary op x y l c) b h =
      >>=-Positioned _ _ (expr_safe ctx x b ((and_iff _ _).0 h).0)
        (λ b2. >>=-Positioned _ _ (expr_safe ctx y b2 ((and_iff _ _).0 h).1) (λ b3. tt))
  expr_safe ctx (logical op x y l c) b h =
      >>=-Positioned _ _ (expr_safe ctx x b ((and_iff _ _).0 h).0)
        (λ b2. >>=-Positioned _ _ (expr_safe ctx y b2 ((and_iff _ _).0 h).1) (λ b3. tt))
  expr_safe ctx (unary op e l c) b h = >>=-Positioned _ _ (expr_safe ctx e _ h) (λ b2. tt)
  expr_safe ctx (pre n d l c) b h = >>=-Positioned _ _ (slot_of-Positioned ctx n l c) (λ s. tt)
  expr_safe ctx (post n d l c) b h = >>=-Positioned _ _ (slot_of-Positioned ctx n l c) (λ s. tt)
  expr_safe ctx (call n es l c) b h =
      >>=-Positioned _ _ (args_safe ctx es b h)
        (λ b2. after_args-Positioned n (count_args es) l c b2 (opcode n (count_args es)))
  expr_safe ctx (index n e l c) b h =
      >>=-Positioned _ _ (slot_of-Positioned ctx n l c)
        (λ s. >>=-Positioned _ _ (expr_safe ctx e b h) (λ b2. tt))
  expr_safe ctx (argc l c) b h = tt
  expr_safe ctx (stream s l c) b h = tt
  expr_safe ctx (argv e l c) b h = >>=-Positioned _ _ (expr_safe ctx e b h) (λ b2. tt)
  expr_safe ctx (byte e l c) b h = >>=-Positioned _ _ (expr_safe ctx e b h) (λ b2. tt)
  expr_safe ctx (null l c) b h = tt
  expr_safe ctx (eof_lit l c) b h = tt

  args_safe :
      (ctx : FnCtx) (es : Args) (b : Buf) → formed_args es ≡ true → Positioned (emit_args ctx es b)
  args_safe ctx no_args b h = tt
  args_safe ctx (arg e es) b h =
      >>=-Positioned _ _ (expr_safe ctx e b ((and_iff _ _).0 h).0)
        (λ b2. args_safe ctx es b2 ((and_iff _ _).0 h).1)

-- An expression whose character literals begin and end with a quote is emitted, or refused with a
-- position.
pub emit_expr-Positioned :
    (ctx : FnCtx) (e : Expr) (b : Buf) → formed_expr e ≡ true → Positioned (emit_expr ctx e b)
emit_expr-Positioned ctx e b h = expr_safe ctx e b h
