-- ===== src/Trans/Lexer.antt =====
-- trans/src/lexer.rs: the scanner.
pub mod Literals
pub mod Shapes
pub mod Rounds
pub mod Streams
use nmerkar.Base.{
  ℕ, zero, suc, ◌+◌, ◌/◌, ◌%◌, Bool, true, false, ◌&&◌, ◌||◌, not, List, [], ◌∷◌, ◌++◌, Option,
  none, some, Text, codes, starts_with, if◌then◌else◌, leb, ◌==◌, length, find, get_or,
}
use nmerkar.Base.Results.{Result, ok, err, ◌>>=◌}
use nmerkar.Trans.Token.{
  Kind, int, ident, str, char, punct, eof, Token, Error, Fault, failed, out_of_fuel, multi_punct,
}

-- The bytes from `i` on, with the position `line`, `col`.
pub record Cursor : Type 0 where
  pub bytes : Text
  pub line : ℕ
  pub col : ℕ

abbrev pub at : Text → ℕ → ℕ → Cursor
at bs l c = record { bytes = bs; line = l; col = c }

abbrev pub line_after : ℕ → ℕ → ℕ
line_after b l = if b == 10 then l + 1 else l

abbrev pub col_after : ℕ → ℕ → ℕ
col_after b c = if b == 10 then 1 else c + 1

abbrev pub bump_at : Text → ℕ → ℕ → Cursor
bump_at [] l c = at [] l c
bump_at (b ∷ bs) l c = at bs (line_after b l) (col_after b c)

-- `bump!`
unfoldable pub bump : Cursor → Cursor
bump s = bump_at s.bytes s.line s.col

unfoldable pub bumps : ℕ → Cursor → Cursor
bumps zero s = s
bumps (suc n) s = bumps n (bump s)

-- What a loop has read, and where it stopped.
abbrev pub Scan : Type 0
Scan = Text × Cursor

abbrev pub took : ℕ → Scan → Scan
took b (t, s) = (b ∷ t, s)

-- `while i < b.len() && p(b[i]) { bump!(); }`
unfoldable pub scan_while : (ℕ → Bool) → Text → ℕ → ℕ → Scan
scan_while p [] l c = ([], at [] l c)
scan_while p (b ∷ bs) l c =
    let rest = scan_while p bs (line_after b l) (col_after b c) in
    if p b then took b rest else ([], at (b ∷ bs) l c)

-- The loop of a block comment, behind its `/*`; none where the text ends first.
unfoldable pub skip_block : Text → ℕ → ℕ → Option Cursor
skip_block [] l c = none
skip_block (b ∷ bs) l c =
    let rest = skip_block bs (line_after b l) (col_after b c) in
    if b == b'*' && starts_with (codes "/") bs then some (bumps 2 (at (b ∷ bs) l c)) else rest

-- The loop of a literal behind its opening quote: a backslash takes the next byte with it.
unfoldable pub quoted : ℕ → Text → ℕ → ℕ → Scan
quoted q [] l c = ([], at [] l c)
quoted q (b ∷ []) l c =
    if b == q then ([], at (b ∷ []) l c) else (b ∷ [], at [] (line_after b l) (col_after b c))
quoted q (b ∷ d ∷ bs) l c =
    let escaped = quoted q bs (line_after d (line_after b l)) (col_after d (col_after b c)) in
    let plain = quoted q (d ∷ bs) (line_after b l) (col_after b c) in
    if b == q
    then ([], at (b ∷ d ∷ bs) l c)
    else if b == b'\\'
    then took b (took d escaped)
    else took b plain

-- One round of `lex`: it skips text, makes a token, or leaves with an error.
pub data Step : Type 0 where
  skip : Cursor → Step
  made : Token → Cursor → Step
  fail : Error → Step

abbrev pub is_digit : ℕ → Bool
is_digit b = leb b'0' b && leb b b'9'

abbrev pub is_hex_digit : ℕ → Bool
is_hex_digit b = is_digit b || (leb b'a' b && leb b b'f') || (leb b'A' b && leb b b'F')

abbrev pub is_alpha : ℕ → Bool
is_alpha b = (leb b'a' b && leb b b'z') || (leb b'A' b && leb b b'Z')

abbrev pub is_name_start : ℕ → Bool
is_name_start b = is_alpha b || b == b'_'

abbrev pub is_name_byte : ℕ → Bool
is_name_byte b = is_alpha b || is_digit b || b == b'_'

abbrev pub is_graphic : ℕ → Bool
is_graphic b = leb 33 b && leb b 126

abbrev pub is_blank : ℕ → Bool
is_blank b = b == b' ' || b == 9 || b == 13 || b == 10

-- `format!("unexpected character 0x{:02x}", c)`
abbrev pub unexpected : ℕ → Text
unexpected b =
    codes "unexpected character 0x"
    ++ (get_or (codes "0123456789abcdef") (b / 16) 0
        ∷ get_or (codes "0123456789abcdef") (b % 16) 0
        ∷ [])

abbrev pub make : Kind → Text → ℕ → ℕ → Cursor → Step
make k t l c s = made (record { kind = k; text = t; line = l; col = c }) s

abbrev pub fail_at : ℕ → ℕ → Text → Step
fail_at l c m = fail (record { line = l; col = c; msg = m })

-- Behind the loop of a literal: the closing quote, or the end of the text.
abbrev pub close : Kind → ℕ → Text → ℕ → ℕ → Scan → Text → Step
close k q message l c (t, s) [] = fail_at l c message
close k q message l c (t, s) (b ∷ bs) = make k (q ∷ t ++ (q ∷ [])) l c (bump s)

-- A string or character literal.
unfoldable pub literal : Kind → ℕ → Text → Text → ℕ → ℕ → Step
unfolding quoted
literal k q message bs l c =
    let body = quoted q bs l (c + 1) in close k q message l c body body.1.bytes

abbrev pub block_end : ℕ → ℕ → Option Cursor → Step
block_end l c none = fail_at l c (codes "unterminated block comment")
block_end l c (some s) = skip s

abbrev pub hex_end : ℕ → ℕ → ℕ → ℕ → Scan → Step
hex_end b x l c ([], s) = fail_at l c (codes "malformed hex literal")
hex_end b x l c (d ∷ t, s) = make int (b ∷ x ∷ d ∷ t) l c s

-- `0x` and hexadecimal digits, or decimal digits.
unfoldable pub number : ℕ → Text → ℕ → ℕ → Step
number b [] l c = let (t, s) = scan_while is_digit (b ∷ []) l c in make int t l c s
number b (x ∷ bs) l c =
    let (t, s) = scan_while is_digit (b ∷ x ∷ bs) l c in
    if b == b'0' && (x == b'x' || x == b'X')
    then hex_end b x l c (scan_while is_hex_digit bs l (c + 2))
    else make int t l c s

-- The operator table, then any single graphic byte.
abbrev pub operator : ℕ → Text → ℕ → ℕ → Option Text → Step
operator b bs l c (some op) = make punct op l c (bumps (length op) (at (b ∷ bs) l c))
operator b bs l c none =
    if is_graphic b
    then make punct (b ∷ []) l c (bump (at (b ∷ bs) l c))
    else fail_at l c (unexpected b)

-- The body of the loop of `lex` at the byte `b` in front of `bs`.
unfoldable pub step : ℕ → Text → ℕ → ℕ → Step
unfolding scan_while skip_block literal number
step b bs l c =
    let line_rest = scan_while (λ x. not (x == 10)) (b ∷ bs) l c in
    let (name, s) = scan_while is_name_byte (b ∷ bs) l c in
    if is_blank b
    then skip (bump (at (b ∷ bs) l c))
    else if b == b'/' && starts_with (codes "/") bs
    then skip line_rest.1
    else if b == b'/' && starts_with (codes "*") bs
    then (let s2 = bumps 2 (at (b ∷ bs) l c) in block_end l c (skip_block s2.bytes s2.line s2.col))
    else if b == b'#'
    then skip line_rest.1
    else if b == b'"'
    then literal str b'"' (codes "unterminated string literal") bs l c
    else if b == b'\''
    then literal char b'\'' (codes "unterminated character literal") bs l c
    else if is_digit b
    then number b bs l c
    else if is_name_start b
    then make ident name l c s
    else operator b bs l c (find (λ op. starts_with op (b ∷ bs)) multi_punct)

abbrev pub end_token : ℕ → ℕ → Token
end_token l c = record { kind = eof; text = []; line = l; col = c }

-- The loop of `lex` on fuel.
unfoldable pub lex_loop : ℕ → Cursor → Result Fault (List Token)
unfolding step
lex_loop zero s = err out_of_fuel
lex_loop (suc f) s = elim s.bytes [
  | [] ↦ ok (end_token s.line s.col ∷ [])
  | b ∷ bs ↦ elim (step b bs s.line s.col) [
    | skip n ↦ lex_loop f n
    | made t n ↦ lex_loop f n >>= λ ts. ok (t ∷ ts)
    | fail e ↦ err (failed e)
  ]
]

-- `lex`: a round for each byte, and one that sees the end.
unfoldable pub lex : Text → Result Fault (List Token)
unfolding lex_loop
lex src = lex_loop (suc (length src)) (at src 1 1)
