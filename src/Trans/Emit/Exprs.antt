-- ===== src/Trans/Emit/Exprs.antt =====
-- trans/src/emit.rs: the words of expressions.
use nmerkar.Base.{
  ℕ, suc, ◌-◌, ◌&&◌, [], ◌∷◌, ◌++◌, Option, none, some, Text, codes, text_eq, if◌then◌else◌, ltb,
  ◌==◌, length, take,
}
use nmerkar.Base.Results.{Result, ok, err, ◌>>=◌}
use nmerkar.Trans.Token.{Fault, panicked, failed_at}
use nmerkar.Trans.Syntax.{
  BinOp, add, sub, mul, shl, shr, lt, le, gt, ge, eq, ne, bit_and, bit_xor, bit_or, LogicOp, and,
  or, UnOp, neg, not, bit_not, Delta, up, down, Stream, stdout, stdin, stderr, Expr, int_lit,
  str_lit, char_lit, var, assign, binary, logical, unary, pre, post, call, index, argc, stream,
  argv, byte, null, eof_lit, Args, no_args, arg,
}
use nmerkar.Trans.Emit.{FnCtx, Buf, add_code, slot_of}
use nmerkar.Base.Decimal.{decimal}

-- `vararg_fixed_params`
abbrev pub vararg_fixed_params : Text → Option ℕ
vararg_fixed_params name =
    if text_eq name (codes "printf")
    then some 1
    else if text_eq name (codes "fprintf")
    then some 2
    else none

-- `binop_mnemonic`
abbrev pub binop_mnemonic : BinOp → Text
binop_mnemonic add = codes "add"
binop_mnemonic sub = codes "sub"
binop_mnemonic mul = codes "mul"
binop_mnemonic shl = codes "shl"
binop_mnemonic shr = codes "shr"
binop_mnemonic lt = codes "lt"
binop_mnemonic le = codes "gt not"
binop_mnemonic gt = codes "gt"
binop_mnemonic ge = codes "lt not"
binop_mnemonic eq = codes "eq"
binop_mnemonic ne = codes "eq not"
binop_mnemonic bit_and = codes "and"
binop_mnemonic bit_or = codes "or"
binop_mnemonic bit_xor = codes "xor"

abbrev pub escape_value : Text → Option ℕ
escape_value esc =
    if text_eq esc (codes "n")
    then some 10
    else if text_eq esc (codes "t")
    then some 9
    else if text_eq esc (codes "r")
    then some 13
    else if text_eq esc (codes "0")
    then some 0
    else if text_eq esc (codes "\\")
    then some 92
    else if text_eq esc (codes "'")
    then some 39
    else none

-- What `decode_char` gives: a value, a message, or the panic of a slice whose start is behind its end.
pub data Decoded : Type 0 where
  value : ℕ → Decoded
  message : Text → Decoded
  bad_slice : Decoded

abbrev pub decode_escape : Text → Option ℕ → Decoded
decode_escape esc (some v) = value v
decode_escape esc none = message (codes "bad char escape: \\" ++ esc)

abbrev pub decode_inner : Text → Decoded
decode_inner [] = message (codes "empty character literal")
decode_inner (b ∷ bs) = if b == b'\\' then decode_escape bs (escape_value bs) else value b

-- `decode_char`: what stands between the quotes.
unfoldable pub decode_char : Text → Decoded
decode_char [] = bad_slice
decode_char (q ∷ []) = bad_slice
decode_char (q ∷ b ∷ bs) = decode_inner (take (length bs) (b ∷ bs))

abbrev pub char_words : ℕ → ℕ → Buf → Decoded → Result Fault Buf
char_words l c buf (value v) = ok (add_code (decimal v ++ codes " ") buf)
char_words l c buf (message m) = err (failed_at l c m)
char_words l c buf bad_slice = err panicked

abbrev pub logic_words : LogicOp → Text
logic_words and = codes "mul not not "
logic_words or = codes "or not not "

abbrev pub unary_before : UnOp → Text
unary_before neg = codes "0 "
unary_before bit_not = codes "-1 "
unary_before not = []

abbrev pub unary_after : UnOp → Text
unary_after neg = codes "sub "
unary_after bit_not = codes "sub "
unary_after not = codes "not "

abbrev pub delta_op : Delta → Text
delta_op up = codes "add"
delta_op down = codes "sub"

abbrev pub stream_name : Stream → Text
stream_name stdout = codes "stdout"
stream_name stdin = codes "stdin"
stream_name stderr = codes "stderr"

-- The words of the C functions that are opcodes, at the argument count that makes them so.
abbrev pub opcode : Text → ℕ → Option Text
opcode name n =
    if text_eq name (codes "malloc") && n == 1
    then some (codes "malloc ")
    else if text_eq name (codes "free") && n == 1
    then some (codes "free ")
    else if text_eq name (codes "strlen") && n == 1
    then some (codes "length ")
    else if text_eq name (codes "strcat") && n == 2
    then some (codes "concat ")
    else if text_eq name (codes "puts") && n == 1
    then some (codes "print 0 ")
    else none

abbrev pub too_few : Text → ℕ → ℕ → Text
too_few name fixed n =
    name
    ++ (codes " expects at least " ++ (decimal fixed ++ (codes " argument(s), got " ++ decimal n)))

abbrev pub call_words : Text → Text
call_words name = codes "'" ++ (name ++ codes " ")

-- Behind the arguments of a call that is no opcode: the count of a variadic call, and the call.
abbrev pub finish_call : Text → ℕ → ℕ → ℕ → Buf → Option ℕ → Result Fault Buf
finish_call name n l c buf none = ok (add_code (call_words name) buf)
finish_call name n l c buf (some fixed) =
    if ltb n fixed
    then err (failed_at l c (too_few name fixed n))
    else ok (add_code (call_words name) (add_code (decimal (n - fixed) ++ codes " ") buf))

abbrev pub after_args : Text → ℕ → ℕ → ℕ → Buf → Option Text → Result Fault Buf
after_args name n l c buf (some ws) = ok (add_code ws buf)
after_args name n l c buf none = finish_call name n l c buf (vararg_fixed_params name)

-- `args.len()`
abbrev pub count_args : Args → ℕ
count_args no_args = 0
count_args (arg e es) = suc (count_args es)

abbrev pub store : Text → Text
store slot = slot ++ codes "! "

abbrev pub spaced : Text → Text
spaced t = t ++ codes " "

-- What stands in front of the value of a compound assignment, and behind it.
abbrev pub assign_before : Text → Option BinOp → Text
assign_before slot none = []
assign_before slot (some op) = spaced slot

abbrev pub assign_after : Option BinOp → Text
assign_after none = []
assign_after (some op) = spaced (binop_mnemonic op)

-- `{slot} 1 {op} {slot}! `
abbrev pub bump_words : Text → Delta → Text
bump_words slot d = slot ++ (codes " 1 " ++ (delta_op d ++ (codes " " ++ store slot)))

-- `Emitter::expr`
unfoldable mutual
  pub emit_expr : FnCtx → Expr → Buf → Result Fault Buf
  emit_expr ctx (int_lit t l c) buf = ok (add_code (spaced t) buf)
  emit_expr ctx (str_lit t l c) buf = ok (add_code (spaced t) buf)
  emit_expr ctx (char_lit t l c) buf = char_words l c buf (decode_char t)
  emit_expr ctx (var n l c) buf = do slot ← slot_of ctx n l c; ok (add_code (spaced slot) buf)
  emit_expr ctx (assign n op e l c) buf = do
    slot ← slot_of ctx n l c
    b ← emit_expr ctx e (add_code (assign_before slot op) buf)
    ok (add_code (store slot) (add_code (assign_after op) b))
  emit_expr ctx (binary op x y l c) buf = do
    b ← emit_expr ctx x buf
    b2 ← emit_expr ctx y b
    ok (add_code (spaced (binop_mnemonic op)) b2)
  emit_expr ctx (logical op x y l c) buf = do
    b ← emit_expr ctx x buf
    b2 ← emit_expr ctx y b
    ok (add_code (logic_words op) b2)
  emit_expr ctx (unary op e l c) buf = do
    b ← emit_expr ctx e (add_code (unary_before op) buf)
    ok (add_code (unary_after op) b)
  emit_expr ctx (pre n d l c) buf = do
    slot ← slot_of ctx n l c
    ok (add_code (bump_words slot d) buf)
  emit_expr ctx (post n d l c) buf = do
    slot ← slot_of ctx n l c
    ok (add_code (spaced slot ++ (bump_words slot d ++ codes "consume ")) buf)
  emit_expr ctx (call n args l c) buf = do
    b ← emit_args ctx args buf
    after_args n (count_args args) l c b (opcode n (count_args args))
  emit_expr ctx (index n e l c) buf = do
    slot ← slot_of ctx n l c
    b ← emit_expr ctx e buf
    ok (add_code (slot ++ codes " \"\" 'strstr add load 255 and ") b)
  emit_expr ctx (argc l c) buf = ok (add_code (codes "extern \"nk_argc\" load ") buf)
  emit_expr ctx (stream s l c) buf =
      ok (add_code (codes "extern \"" ++ (stream_name s ++ codes "\" load ")) buf)
  emit_expr ctx (argv e l c) buf = do
    b ← emit_expr ctx e buf
    ok (add_code (codes "8 mul extern \"nk_argv\" load add load ") b)
  emit_expr ctx (byte e l c) buf = do
    b ← emit_expr ctx e buf
    ok (add_code (codes "load 255 and ") b)
  emit_expr ctx (null l c) buf = ok (add_code (codes "0 ") buf)
  emit_expr ctx (eof_lit l c) buf = ok (add_code (codes "-1 ") buf)

  pub emit_args : FnCtx → Args → Buf → Result Fault Buf
  emit_args ctx no_args buf = ok buf
  emit_args ctx (arg e es) buf = do b ← emit_expr ctx e buf; emit_args ctx es b
