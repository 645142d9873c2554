-- ===== src/Sandbox/Bake/Escape.antt =====
-- comp/src/sandbox.rs: a text that c_escape puts between quotes is read back by C as that text.
use nmerkar.Base.{
  ℕ, ◌≡◌, refl, sym, ap, ◌∙◌, false, [], ◌∷◌, ◌++◌, Option, none, some, Text, if◌then◌else◌, ◌==◌,
  ==_iff, inl, inr, Bool-cases,
}
use nmerkar.Sandbox.Bake.{c_escape}

abbrev pub in_front : ℕ → Option (Text × Text) → Option (Text × Text)
in_front c none = none
in_front c (some (s, rest)) = some (c ∷ s, rest)

-- The value of a C escape with one letter, among those for a backslash, a quote and a line end.
abbrev pub escape_letter : ℕ → Option ℕ
escape_letter c =
    if c == b'\\'
    then some b'\\'
    else if c == b'"'
    then some b'"'
    else if c == b'n'
    then some 10
    else none

abbrev pub in_front_of : Option ℕ → Option (Text × Text) → Option (Text × Text)
in_front_of none r = none
in_front_of (some c) r = in_front c r

-- A C string literal behind its opening quote: the text up to the closing quote, and what follows
-- it. A line end inside is an error.
unfoldable pub read_literal : Text → Option (Text × Text)
read_literal [] = none
read_literal (c ∷ []) = if c == b'"' then some ([], []) else none
read_literal (c ∷ d ∷ s) =
    let escaped = in_front_of (escape_letter d) (read_literal s) in
    let plain = in_front c (read_literal (d ∷ s)) in
    if c == b'"'
    then some ([], d ∷ s)
    else if c == b'\\'
    then escaped
    else if c == 10
    then none
    else plain

read_plain :
    (c : ℕ) (s : Text)
    → (c == b'"') ≡ false
    → (c == b'\\') ≡ false
    → (c == 10) ≡ false
    → (a : Text) (rest : Text) → read_literal s ≡ some (a, rest)
    → read_literal (c ∷ s) ≡ some (c ∷ a, rest)
unfolding read_literal
read_plain c [] e1 e2 e3 a rest h = absurd cc
read_plain c (d ∷ s) e1 e2 e3 a rest h = rw (e1, e2, e3) (ap (in_front c) h)

backslash :
    (s rest : Text)
    → read_literal (c_escape s ++ (b'"' ∷ rest)) ≡ some (s, rest)
    → read_literal (b'\\' ∷ b'\\' ∷ c_escape s ++ (b'"' ∷ rest)) ≡ some (b'\\' ∷ s, rest)
unfolding read_literal
backslash s rest h = ap (in_front b'\\') h

quote :
    (s rest : Text)
    → read_literal (c_escape s ++ (b'"' ∷ rest)) ≡ some (s, rest)
    → read_literal (b'\\' ∷ b'"' ∷ c_escape s ++ (b'"' ∷ rest)) ≡ some (b'"' ∷ s, rest)
unfolding read_literal
quote s rest h = ap (in_front b'"') h

feed :
    (s rest : Text)
    → read_literal (c_escape s ++ (b'"' ∷ rest)) ≡ some (s, rest)
    → read_literal (b'\\' ∷ b'n' ∷ c_escape s ++ (b'"' ∷ rest)) ≡ some (10 ∷ s, rest)
unfolding read_literal
feed s rest h = ap (in_front 10) h

-- The literal that `c_escape` makes of a text is read back as the text, and ends where it should:
-- no text closes its quotes early.
pub read_literal-c_escape :
    (s rest : Text) → read_literal (c_escape s ++ (b'"' ∷ rest)) ≡ some (s, rest)
unfolding c_escape
read_literal-c_escape [] [] = unfold read_literal in refl
read_literal-c_escape [] (r ∷ rest) = unfold read_literal in refl
read_literal-c_escape (c ∷ s) rest = elim (Bool-cases (c == b'\\')) [
  | inl e1 ↦
      let k : c ≡ b'\\' = (==_iff c b'\\').0 e1 in
      rw e1 (backslash s rest (read_literal-c_escape s rest) ∙ ap (λ x. some (x ∷ s, rest)) (sym k))
  | inr e1 ↦ elim (Bool-cases (c == b'"')) [
    | inl e2 ↦
        let k : c ≡ b'"' = (==_iff c b'"').0 e2 in
        rw (e1, e2)
          (quote s rest (read_literal-c_escape s rest) ∙ ap (λ x. some (x ∷ s, rest)) (sym k))
    | inr e2 ↦ elim (Bool-cases (c == 10)) [
      | inl e3 ↦
          let k : c ≡ 10 = (==_iff c 10).0 e3 in
          rw (e1, e2, e3)
            (feed s rest (read_literal-c_escape s rest) ∙ ap (λ x. some (x ∷ s, rest)) (sym k))
      | inr e3 ↦
          rw (e1, e2, e3)
            (read_plain c (c_escape s ++ (b'"' ∷ rest)) e2 e1 e3 s rest
              (read_literal-c_escape s rest))
    ]
  ]
]
