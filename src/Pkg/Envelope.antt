-- ===== src/Pkg/Envelope.antt =====
-- comp/src/pkg.rs: the signature envelope of a package, `nk.pub` and `nk.sig`.
use nmerkar.Base.{
  ℕ, ◌+◌, ◌*◌, leb, Bool, not, ◌||◌, ◌&&◌, List, [], ◌∷◌, all, length, Option, none, some, Text,
  if◌then◌else◌, ◌==◌, trim,
}
use nmerkar.Base.Results.{Result, ok, err}
use nmerkar.Ed25519.Signature.{verify}
use nmerkar.Ed25519.Signature.Hex.{nibble, from_hex32}

-- The two files, where they exist, each with what `read_to_string(…).unwrap_or_default()` gives.
pub record Envelope : Type 0 where
  pub nk_pub : Option Text
  pub nk_sig : Option Text

-- The `user_err!` exits of `verify_signature`.
pub data SignatureError : Type 0 where
  incomplete bad_public bad_signature : SignatureError
  failed : Text → SignatureError

abbrev pub is_hex : ℕ → Bool
is_hex c = (leb b'0' c && leb c b'9') || ((leb b'a' c && leb c b'f') || (leb b'A' c && leb c b'F'))

abbrev or_zero : Option ℕ → ℕ
or_zero none = 0
or_zero (some n) = n

-- `u8::from_str_radix(&sig_hex[2 * i..2 * i + 2], 16)`, pair by pair
unfoldable pub hex_bytes : Text → List ℕ
hex_bytes (h ∷ l ∷ s) = (or_zero (nibble h) * 16 + or_zero (nibble l)) ∷ hex_bytes s
hex_bytes _ = []

unfoldable pub check_signature :
    Text → Option (List ℕ) → Text → Text → Result SignatureError (Option Text)
check_signature pub_hex none sig_hex root = err bad_public
check_signature pub_hex (some pk) sig_hex root =
    if not (length sig_hex == 128) || not (all is_hex sig_hex)
    then err bad_signature
    else if not (verify pk root (hex_bytes sig_hex))
    then err (failed root)
    else ok (some pub_hex)

-- `verify_signature`; the root is ASCII, so its bytes are its characters.
unfoldable pub verify_signature :
    Option Text → Option Text → Text → Result SignatureError (Option Text)
unfolding check_signature
verify_signature none none root = ok none
verify_signature (some p) (some s) root =
    check_signature (trim p) (from_hex32 (trim p)) (trim s) root
verify_signature _ _ root = err incomplete
