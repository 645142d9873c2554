-- ===== src/Trans/Token.antt =====
-- trans/src/token.rs and trans/src/error.rs: tokens and positioned errors.
use nmerkar.Base.{ℕ, Bool, true, false, ◌&&◌, List, [], ◌∷◌, Text, codes, text_eq, contains}

-- `Kind`
pub data Kind : Type 0 where
  int ident str char punct eof : Kind

-- `==` on kinds
abbrev pub is_kind : Kind → Kind → Bool
is_kind int int = true
is_kind ident ident = true
is_kind str str = true
is_kind char char = true
is_kind punct punct = true
is_kind eof eof = true
is_kind _ _ = false

-- `Token`
pub record Token : Type 0 where
  pub kind : Kind
  pub text : Text
  pub line : ℕ
  pub col : ℕ

-- `Token::is_punct`
unfoldable pub is_punct : Token → Text → Bool
is_punct t s = is_kind t.kind punct && text_eq t.text s

-- `Token::is_ident`
unfoldable pub is_ident : Token → Text → Bool
is_ident t s = is_kind t.kind ident && text_eq t.text s

abbrev pub type_words : List Text
type_words =
    codes "int"
    ∷ codes "char"
    ∷ codes "void"
    ∷ codes "long"
    ∷ codes "short"
    ∷ codes "unsigned"
    ∷ codes "signed"
    ∷ codes "const"
    ∷ codes "static"
    ∷ []

-- `Token::is_type_word`
unfoldable pub is_type_word : Token → Bool
is_type_word t = is_kind t.kind ident && contains type_words t.text

-- `MULTI_PUNCT`
abbrev pub multi_punct : List Text
multi_punct =
    codes "<<="
    ∷ codes ">>="
    ∷ codes "=="
    ∷ codes "!="
    ∷ codes "<="
    ∷ codes ">="
    ∷ codes "&&"
    ∷ codes "||"
    ∷ codes "++"
    ∷ codes "--"
    ∷ codes "+="
    ∷ codes "-="
    ∷ codes "*="
    ∷ codes "/="
    ∷ codes "%="
    ∷ codes "<<"
    ∷ codes ">>"
    ∷ []

-- `Error`
pub record Error : Type 0 where
  pub line : ℕ
  pub col : ℕ
  pub msg : Text

-- How a phase of the translator can end without a result: with a positioned error, with a Rust
-- panic, or, in the model alone, for want of fuel.
pub data Fault : Type 0 where
  failed : Error → Fault
  panicked : Fault
  out_of_fuel : Fault

-- `Error::new`
abbrev pub failed_at : ℕ → ℕ → Text → Fault
failed_at l c m = failed (record { line = l; col = c; msg = m })
