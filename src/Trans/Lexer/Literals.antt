-- ===== src/Trans/Lexer/Literals.antt =====
-- What the scanner reads.
use nmerkar.Base.{
  ℕ, zero, suc, ◌+◌, ◌-◌, ◌≤◌, ◌≡◌, inl, inr, refl, sym, arith, Bool, true, false, ◌&&◌, ◌||◌, not,
  List, [], ◌∷◌, ◌++◌, Option, none, some, Text, codes, starts_with, contains_iff, if◌then◌else◌,
  ◌==◌, length, find, all, Elem, Bool-cases,
}
use nmerkar.Trans.Token.{Kind, int, ident, str, char, multi_punct}
use nmerkar.Trans.Lexer.{
  Cursor, at, bump, bumps, Scan, scan_while, skip_block, quoted, Step, skip, made, fail, make,
  is_digit, is_hex_digit, is_name_start, is_name_byte, is_graphic, literal, number, close, operator,
  block_end, hex_end, line_after, col_after,
}
use nmerkar.Trans.Lexer.Shapes.{has_shape, is_shaped, ends_in}

-- At most `n` bytes are left, and a token has the shape of its kind.
abbrev pub StepOk : ℕ → Step → Type 0
StepOk n (skip s) = length s.bytes ≤ n
StepOk n (made t s) = (length s.bytes ≤ n) × (is_shaped t ≡ true)
StepOk n (fail e) = Unit {0}

pub if-StepOk :
    (n : ℕ) (c : Bool) (x y : Step)
    → (c ≡ true → StepOk n x)
    → (c ≡ false → StepOk n y)
    → StepOk n (if c then x else y)
if-StepOk n true x y h k = h refl
if-StepOk n false x y h k = k refl

pub bumps_lem : (n : ℕ) (s : Cursor) → length ((bumps n s).bytes) ≤ length s.bytes - n
unfolding bumps bump
bumps_lem zero s = omega arith
bumps_lem (suc n) s =
    elim s.bytes
      as (λ bs. length ((bumps (suc n) (at bs s.line s.col)).bytes) ≤ length bs - suc n) [
        | [] ↦ omega (arith, bumps_lem n (at [] s.line s.col))
        | b ∷ bs ↦ omega (arith, bumps_lem n (at bs (line_after b s.line) (col_after b s.col)))
      ]

scan_while_lem :
    (p : ℕ → Bool) (bs : Text) (l c : ℕ)
    → (all p ((scan_while p bs l c).0) ≡ true)
      × (length ((scan_while p bs l c).1.bytes) ≤ length bs)
unfolding scan_while
scan_while_lem p [] l c = (refl, omega arith)
scan_while_lem p (b ∷ bs) l c =
    let ih = scan_while_lem p bs (line_after b l) (col_after b c) in
    elim (Bool-cases (p b)) [
      | inl e ↦ rw e ((ground (arith, e, ih.0), omega (arith, ih.1)))
      | inr e ↦ rw e ((refl, omega arith))
    ]

pub bump_lem : (s : Cursor) → length ((bump s).bytes) ≤ length s.bytes - 1
unfolding bumps
bump_lem s = bumps_lem 1 s

-- With a first byte that fits, that byte is taken.
scan_while_first :
    (p : ℕ → Bool) (b : ℕ) (bs : Text) (l c : ℕ)
    → p b ≡ true
    → (t : Text) × (s : Cursor) × (scan_while p (b ∷ bs) l c ≡ (b ∷ t, s))
      × (all p t ≡ true)
      × (length s.bytes ≤ length bs)
unfolding scan_while
scan_while_first p b bs l c h =
    let ih = scan_while_lem p bs (line_after b l) (col_after b c) in
    let (t, s) = scan_while p bs (line_after b l) (col_after b c) in (t, s, rw h refl, ih.0, ih.1)

skip_block_lem :
    (bs : Text) (l c : ℕ) (s : Cursor) → skip_block bs l c ≡ some s → length s.bytes ≤ length bs
unfolding skip_block
skip_block_lem [] l c s h = absurd cc
skip_block_lem (b ∷ bs) l c s h = elim (Bool-cases (b == b'*' && starts_with (codes "/") bs)) [
  | inl e ↦
      let r : some (bumps 2 (at (b ∷ bs) l c)) ≡ some s = rw e at h in
      let k : bumps 2 (at (b ∷ bs) l c) ≡ s = cc in
      rw (sym k) (omega (arith, bumps_lem 2 (at (b ∷ bs) l c)))
  | inr e ↦
      let r : skip_block bs (line_after b l) (col_after b c) ≡ some s = rw e at h in
      omega (arith, skip_block_lem bs (line_after b l) (col_after b c) s r)
]

quoted_lem : (q : ℕ) (bs : Text) (l c : ℕ) → length ((quoted q bs l c).1.bytes) ≤ length bs
unfolding quoted
quoted_lem q [] l c = omega arith
quoted_lem q (b ∷ []) l c = elim (Bool-cases (b == q)) [
  | inl e ↦ rw e (omega arith)
  | inr e ↦ rw e (omega arith)
]
quoted_lem q (b ∷ d ∷ bs) l c =
    let escaped = quoted_lem q bs (line_after d (line_after b l)) (col_after d (col_after b c)) in
    let plain = quoted_lem q (d ∷ bs) (line_after b l) (col_after b c) in
    elim (Bool-cases (b == q)) [
      | inl e ↦ rw e (omega arith)
      | inr e ↦ elim (Bool-cases (b == b'\\')) [
        | inl k ↦ rw (e, k) (omega (arith, escaped))
        | inr k ↦ rw (e, k) (omega (arith, plain))
      ]
    ]

ends_in_snoc : (q : ℕ) (t : Text) → ends_in q (t ++ (q ∷ [])) ≡ true
ends_in_snoc q [] = ground arith
ends_in_snoc q (b ∷ []) = ground arith
ends_in_snoc q (b ∷ d ∷ t) = ends_in_snoc q (d ∷ t)

close-StepOk :
    (k : Kind) (q : ℕ) (m : Text) (l c n : ℕ) (r : Scan)
    → (ends_in q (r.0 ++ (q ∷ [])) ≡ true → has_shape k (q ∷ r.0 ++ (q ∷ [])) ≡ true)
    → (bs : Text) → bs ≡ r.1.bytes
    → length r.1.bytes ≤ n
    → StepOk n (close k q m l c r bs)
close-StepOk k q m l c n (t, s) h [] e g = tt
close-StepOk k q m l c n (t, s) h (b ∷ bs) e g = (omega (arith, bump_lem s), h (ends_in_snoc q t))

literal_lem :
    (k : Kind) (q : ℕ) (m bs : Text) (l c : ℕ)
    → ((t : Text) → ends_in q (t ++ (q ∷ [])) ≡ true → has_shape k (q ∷ t ++ (q ∷ [])) ≡ true)
    → StepOk (length bs) (literal k q m bs l c)
unfolding literal
literal_lem k q m bs l c h =
    let r = quoted q bs l (c + 1) in
    close-StepOk k q m l c (length bs) r (h r.0) r.1.bytes refl (quoted_lem q bs l (c + 1))

block_end_lem :
    (bs : Text) (l c tl tc : ℕ) (o : Option Cursor)
    → o ≡ skip_block bs l c
    → StepOk (length bs) (block_end tl tc o)
block_end_lem bs l c tl tc none e = tt
block_end_lem bs l c tl tc (some s) e = skip_block_lem bs l c s (sym e)

hex_end_lem :
    (b x l c : ℕ) (r : Scan)
    → (b == b'0') ≡ true
    → (x == b'x' || x == b'X') ≡ true
    → all is_hex_digit r.0 ≡ true
    → StepOk (length r.1.bytes) (hex_end b x l c r)
hex_end_lem b x l c ([], s) e h k = tt
hex_end_lem b x l c (d ∷ t, s) e h k = (omega arith, ground (arith, e, h, k))

StepOk-weaken : (m n : ℕ) (r : Step) → m ≤ n → StepOk m r → StepOk n r
StepOk-weaken m n (skip s) h k = omega arith
StepOk-weaken m n (made t s) h k = (omega arith, k.1)
StepOk-weaken m n (fail e) h k = tt

decimal_lem :
    (b : ℕ) (bs : Text) (l c : ℕ)
    → is_digit b ≡ true
    → StepOk (length bs) (
        let (t, s) = scan_while is_digit (b ∷ bs) l c in
        made (record { kind = int; text = t; line = l; col = c }) s)
decimal_lem b bs l c h =
    let (t, s, e, a, k) = scan_while_first is_digit b bs l c h in rw e ((k, ground (arith, h, a)))

number_lem :
    (b : ℕ) (bs : Text) (l c : ℕ) → is_digit b ≡ true → StepOk (length bs) (number b bs l c)
unfolding number
number_lem b [] l c h = decimal_lem b [] l c h
number_lem b (x ∷ bs) l c h =
    if-StepOk (suc (length bs)) (b == b'0' && (x == b'x' || x == b'X')) _ _
      (λ e.
        let r = scan_while_lem is_hex_digit bs l (c + 2) in
        StepOk-weaken (length (scan_while is_hex_digit bs l (c + 2)).1.bytes) (suc (length bs))
          (hex_end b x l c (scan_while is_hex_digit bs l (c + 2))) (omega (arith, r.1))
          (hex_end_lem b x l c (scan_while is_hex_digit bs l (c + 2)) (ground (arith, e))
            (ground (arith, e)) r.0))
      (λ e. decimal_lem b (x ∷ bs) l c h)

find_lem : (p : Text → Bool) (xs : List Text) (t : Text) → find p xs ≡ some t → Elem t xs
find_lem p [] t h = absurd cc
find_lem p (x ∷ xs) t h = elim (Bool-cases (p x)) [
  | inl e ↦ let k : some x ≡ some t = rw e at h in inl cc
  | inr e ↦ let k : find p xs ≡ some t = rw e at h in inr (find_lem p xs t k)
]

-- No operator is empty.
multi_punct_long : (t : Text) → Elem t multi_punct → 1 ≤ length t
multi_punct_long t h = ground (arith, h)

operator_lem :
    (b : ℕ) (bs : Text) (l c : ℕ) (o : Option Text)
    → o ≡ find (λ op. starts_with op (b ∷ bs)) multi_punct
    → StepOk (length bs) (operator b bs l c o)
operator_lem b bs l c none e =
    if-StepOk (length bs) (is_graphic b) _ _
      (λ g. (omega (arith, bump_lem (at (b ∷ bs) l c)), ground (arith, g))) (λ g. tt)
operator_lem b bs l c (some op) e =
    let m = find_lem (λ op. starts_with op (b ∷ bs)) multi_punct op (sym e) in
    (
      omega (arith, bumps_lem (length op) (at (b ∷ bs) l c), multi_punct_long op m),
      ground (arith, (contains_iff multi_punct op).1 m),
    )

name_lem :
    (b : ℕ) (bs : Text) (l c : ℕ)
    → is_name_start b ≡ true
    → StepOk (length bs) (
        let (t, s) = scan_while is_name_byte (b ∷ bs) l c in
        made (record { kind = ident; text = t; line = l; col = c }) s)
name_lem b bs l c h =
    let (t, s, e, a, k) = scan_while_first is_name_byte b bs l c (ground (arith, h)) in
    rw e ((k, ground (arith, h, a)))

pub comment_lem :
    (b : ℕ) (bs : Text) (l c : ℕ)
    → not (b == 10) ≡ true
    → StepOk (length bs) (skip ((scan_while (λ x. not (x == 10)) (b ∷ bs) l c).1))
comment_lem b bs l c h =
    let (t, s, e, a, k) = scan_while_first (λ x. not (x == 10)) b bs l c h in rw e k

pub block_lem :
    (b : ℕ) (bs : Text) (l c tl tc : ℕ)
    → (s : Cursor) → bumps 2 (at (b ∷ bs) l c) ≡ s
    → StepOk (length bs) (block_end tl tc (skip_block s.bytes s.line s.col))
block_lem b bs l c tl tc s e =
    StepOk-weaken (length s.bytes) (length bs) (block_end tl tc (skip_block s.bytes s.line s.col))
      (rw (sym e) (omega (arith, bumps_lem 2 (at (b ∷ bs) l c))))
      (block_end_lem s.bytes s.line s.col tl tc (skip_block s.bytes s.line s.col) refl)

pub token_lem :
    (b : ℕ) (bs : Text) (l c : ℕ)
    → StepOk (length bs) (
        let (name, s) = scan_while is_name_byte (b ∷ bs) l c in
        if b == b'"'
        then literal str b'"' (codes "unterminated string literal") bs l c
        else if b == b'\''
        then literal char b'\'' (codes "unterminated character literal") bs l c
        else if is_digit b
        then number b bs l c
        else if is_name_start b
        then make ident name l c s
        else operator b bs l c (find (λ op. starts_with op (b ∷ bs)) multi_punct))
token_lem b bs l c =
    if-StepOk (length bs) (b == b'"') _ _
      (λ e.
        literal_lem str b'"' (codes "unterminated string literal") bs l c
          (λ t h. ground (arith, h)))
      (λ e1.
        if-StepOk (length bs) (b == b'\'') _ _
          (λ e.
            literal_lem char b'\'' (codes "unterminated character literal") bs l c
              (λ t h. ground (arith, h)))
          (λ e2.
            if-StepOk (length bs) (is_digit b) _ _ (λ e. number_lem b bs l c e)
              (λ e3.
                if-StepOk (length bs) (is_name_start b) _ _ (λ e. name_lem b bs l c e)
                  (λ e4.
                    operator_lem b bs l c (find (λ op. starts_with op (b ∷ bs)) multi_punct)
                      refl))))
