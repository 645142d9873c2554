-- ===== src/Trans/Emit/Resolves.antt =====
-- trans/src/emit.rs: which expressions are emitted.
use nmerkar.Base.{
  ℕ, ◌≡◌, refl, ◌∙◌, arith, Bool, true, false, ◌&&◌, ◌||◌, not, Option, none, some, Text,
  if◌then◌else◌, ltb, leb, lookup, text_eq, codes, text_eq_iff, Bool-cases, inl, inr,
}
use nmerkar.Base.Results.{Result, ok, err, ◌>>=◌}
use nmerkar.Trans.Token.{Fault, failed, panicked, out_of_fuel}
use nmerkar.Trans.Syntax.{
  Expr, int_lit, str_lit, char_lit, var, assign, binary, logical, unary, pre, post, call, index,
  argc, stream, argv, byte, null, eof_lit, Args, no_args, arg,
}
use nmerkar.Trans.Parser.Formed.{formed_expr}
use nmerkar.Trans.Emit.Safe.{Positioned, emit_expr-Positioned}
use nmerkar.Trans.Emit.{FnCtx, Buf, slot_of, slot_result}
use nmerkar.Trans.Emit.Exprs.{
  emit_expr, emit_args, decode_char, Decoded, value, message, bad_slice, char_words, after_args,
  finish_call, opcode, vararg_fixed_params, count_args,
}
use nmerkar.Trans.Emit.CharValues.{has_value, is_value, decode_char-has_value}

abbrev is_ok : {A : Type 0} → Result Fault A → Bool
is_ok (ok a) = true
is_ok (err e) = false

abbrev is_some : Option Text → Bool
is_some none = false
is_some (some t) = true

-- The variable has been declared.
abbrev pub declared : FnCtx → Text → Bool
declared ctx n = is_some (lookup n ctx.slots)

-- A call of `printf` gives it a format, and one of `fprintf` a stream and a format.
abbrev pub enough : Text → ℕ → Bool
enough name n =
    if text_eq name (codes "printf")
    then leb 1 n
    else if text_eq name (codes "fprintf")
    then leb 2 n
    else true

-- Each variable is declared, each character literal has a value, each call has its arguments.
unfoldable mutual
  pub resolves : FnCtx → Expr → Bool
  resolves ctx (char_lit t l c) = has_value t
  resolves ctx (var n l c) = declared ctx n
  resolves ctx (assign n op e l c) = declared ctx n && resolves ctx e
  resolves ctx (binary op x y l c) = resolves ctx x && resolves ctx y
  resolves ctx (logical op x y l c) = resolves ctx x && resolves ctx y
  resolves ctx (unary op e l c) = resolves ctx e
  resolves ctx (pre n d l c) = declared ctx n
  resolves ctx (post n d l c) = declared ctx n
  resolves ctx (call n args l c) = resolves_all ctx args && enough n (count_args args)
  resolves ctx (index n e l c) = declared ctx n && resolves ctx e
  resolves ctx (argv e l c) = resolves ctx e
  resolves ctx (byte e l c) = resolves ctx e
  resolves ctx _ = true

  pub resolves_all : FnCtx → Args → Bool
  resolves_all ctx no_args = true
  resolves_all ctx (arg e es) = resolves ctx e && resolves_all ctx es

is_ok->>= :
    {A B : Type 0} (r : Result Fault A) (f : A → Result Fault B) (p q : Bool)
    → is_ok r ≡ p
    → ((a : A) → is_ok (f a) ≡ q)
    → is_ok (r >>= f) ≡ (p && q)
is_ok->>= (ok a) f p q h k = ground (arith, h, k a)
is_ok->>= (err e) f p q h k = ground (arith, h)

-- The same where the rest cannot fail.
is_ok->>=_last :
    {A B : Type 0} (r : Result Fault A) (f : A → Result Fault B) (p : Bool)
    → is_ok r ≡ p
    → ((a : A) → is_ok (f a) ≡ true)
    → is_ok (r >>= f) ≡ p
is_ok->>=_last (ok a) f p h k = k a ∙ h
is_ok->>=_last (err e) f p h k = h

slot_result_ok : (n : Text) (l c : ℕ) (o : Option Text) → is_ok (slot_result n l c o) ≡ is_some o
slot_result_ok n l c none = refl
slot_result_ok n l c (some s) = refl

slot_of_ok : (ctx : FnCtx) (n : Text) (l c : ℕ) → is_ok (slot_of ctx n l c) ≡ declared ctx n
unfolding slot_of
slot_of_ok ctx n l c = slot_result_ok n l c (lookup n ctx.slots)

abbrev fills : ℕ → Option ℕ → Bool
fills n none = true
fills n (some fixed) = leb fixed n

opcode-enough :
    (n : Text) (k : ℕ) → (is_some (opcode n k) || fills k (vararg_fixed_params n)) ≡ enough n k
opcode-enough n k = elim (Bool-cases (text_eq n (codes "printf"))) [
  | inl h ↦ let e = (text_eq_iff n (codes "printf")).0 h in rw e (unfold text_eq in refl)
  | inr h ↦ elim (Bool-cases (text_eq n (codes "fprintf"))) [
    | inl q ↦ let e = (text_eq_iff n (codes "fprintf")).0 q in rw e (unfold text_eq in refl)
    | inr q ↦ rw (h, q) (ground arith)
  ]
]

char_words_ok : (l c : ℕ) (b : Buf) (d : Decoded) → is_ok (char_words l c b d) ≡ is_value d
char_words_ok l c b (value v) = refl
char_words_ok l c b (message m) = refl
char_words_ok l c b bad_slice = refl

if_ok : {A : Type 0} (p : Bool) (e : Fault) (a : A) → is_ok (if p then err e else ok a) ≡ not p
if_ok true e a = refl
if_ok false e a = refl

finish_call_ok :
    (n : Text) (k l c : ℕ) (b : Buf) (o : Option ℕ) → is_ok (finish_call n k l c b o) ≡ fills k o
finish_call_ok n k l c b none = refl
finish_call_ok n k l c b (some fixed) = if_ok (ltb k fixed) _ _ ∙ ground arith

after_args_ok :
    (n : Text) (k l c : ℕ) (b : Buf) (o : Option Text)
    → is_ok (after_args n k l c b o) ≡ (is_some o || fills k (vararg_fixed_params n))
after_args_ok n k l c b (some w) = refl
after_args_ok n k l c b none = finish_call_ok n k l c b (vararg_fixed_params n)

mutual
  unfolding emit_expr resolves

  expr_ok : (ctx : FnCtx) (e : Expr) (b : Buf) → is_ok (emit_expr ctx e b) ≡ resolves ctx e
  expr_ok ctx (int_lit t l c) b = refl
  expr_ok ctx (str_lit t l c) b = refl
  expr_ok ctx (char_lit t l c) b = char_words_ok l c b (decode_char t) ∙ decode_char-has_value t
  expr_ok ctx (var n l c) b = is_ok->>=_last _ _ _ (slot_of_ok ctx n l c) (λ s. refl)
  expr_ok ctx (assign n op e l c) b =
      is_ok->>= _ _ _ _ (slot_of_ok ctx n l c)
        (λ s. is_ok->>=_last _ _ _ (expr_ok ctx e _) (λ b2. refl))
  expr_ok ctx (binary op x y l c) b =
      is_ok->>= _ _ _ _ (expr_ok ctx x b)
        (λ b2. is_ok->>=_last _ _ _ (expr_ok ctx y b2) (λ b3. refl))
  expr_ok ctx (logical op x y l c) b =
      is_ok->>= _ _ _ _ (expr_ok ctx x b)
        (λ b2. is_ok->>=_last _ _ _ (expr_ok ctx y b2) (λ b3. refl))
  expr_ok ctx (unary op e l c) b = is_ok->>=_last _ _ _ (expr_ok ctx e _) (λ b2. refl)
  expr_ok ctx (pre n d l c) b = is_ok->>=_last _ _ _ (slot_of_ok ctx n l c) (λ s. refl)
  expr_ok ctx (post n d l c) b = is_ok->>=_last _ _ _ (slot_of_ok ctx n l c) (λ s. refl)
  expr_ok ctx (call n es l c) b = is_ok->>= _ _ _ _ (args_ok ctx es b) (λ b2.
      after_args_ok n (count_args es) l c b2 (opcode n (count_args es))
      ∙ opcode-enough n (count_args es))
  expr_ok ctx (index n e l c) b =
      is_ok->>= _ _ _ _ (slot_of_ok ctx n l c)
        (λ s. is_ok->>=_last _ _ _ (expr_ok ctx e b) (λ b2. refl))
  expr_ok ctx (argc l c) b = refl
  expr_ok ctx (stream s l c) b = refl
  expr_ok ctx (argv e l c) b = is_ok->>=_last _ _ _ (expr_ok ctx e b) (λ b2. refl)
  expr_ok ctx (byte e l c) b = is_ok->>=_last _ _ _ (expr_ok ctx e b) (λ b2. refl)
  expr_ok ctx (null l c) b = refl
  expr_ok ctx (eof_lit l c) b = refl

  args_ok : (ctx : FnCtx) (es : Args) (b : Buf) → is_ok (emit_args ctx es b) ≡ resolves_all ctx es
  args_ok ctx no_args b = refl
  args_ok ctx (arg e es) b = is_ok->>= _ _ _ _ (expr_ok ctx e b) (λ b2. args_ok ctx es b2)

-- A result where the flag is set, an error with a position where it is not, and no panic.
abbrev pub Decides : Bool → Result Fault Buf → Type 0
Decides true (ok b) = Unit {0}
Decides false (err (failed e)) = Unit {0}
Decides _ _ = ⊥

decides : (r : Result Fault Buf) (q : Bool) → is_ok r ≡ q → Positioned r → Decides q r
decides (ok b) true h k = tt
decides (ok b) false h k = absurd cc
decides (err (failed e)) true h k = absurd cc
decides (err (failed e)) false h k = tt
decides (err panicked) q h k = absurd k
decides (err out_of_fuel) q h k = absurd k

-- An expression whose character literals begin and end with a quote is emitted where each variable
-- in it has been declared, each of its character literals has a value (something stands between
-- the quotes, and where it begins with a backslash it is one of the six escapes), and each call of
-- `printf` gives a format and each of `fprintf` a stream and a format. In every other case it is
-- refused with a position. It never panics.
pub emit_expr-Decides :
    (ctx : FnCtx) (e : Expr) (b : Buf)
    → formed_expr e ≡ true
    → Decides (resolves ctx e) (emit_expr ctx e b)
emit_expr-Decides ctx e b h =
    decides (emit_expr ctx e b) (resolves ctx e) (expr_ok ctx e b) (emit_expr-Positioned ctx e b h)
