-- ===== src/Pkg/Meta.antt =====
-- comp/src/pkg.rs: the metadata file `nk.pkg` of a package.
use nmerkar.Base.{
  Bool, true, false, ◌&&◌, List, [], ◌∷◌, ◌++◌, Option, none, some, Text, codes, text_eq,
  if◌then◌else◌, lines, words,
}
use nmerkar.Base.Results.{Result, ok, err, ◌>>=◌}
use nmerkar.Pkg.Lock.{stripped}

-- `PkgMeta`
pub record PkgMeta : Type 0 where
  pub name : Option Text
  pub caps : List (Text × Bool)
  pub bins : List (Text × Text)

-- The `user_err!` exits of `parse_nkpkg`.
pub data MetaError : Type 0 where
  bad_caps_entry : Text → MetaError
  unknown_line : Text → MetaError

abbrev pub empty_meta : PkgMeta
empty_meta = record { name = none; caps = []; bins = [] }

abbrev pub with_name : Text → PkgMeta → PkgMeta
with_name n m = record { name = some n; caps = m.caps; bins = m.bins }

abbrev pub with_cap : Text → Bool → PkgMeta → PkgMeta
with_cap c req m = record { name = m.name; caps = m.caps ++ ((c, req) ∷ []); bins = m.bins }

abbrev pub with_bin : Text → Text → PkgMeta → PkgMeta
with_bin n path m = record { name = m.name; caps = m.caps; bins = m.bins ++ ((n, path) ∷ []) }

-- The `["name", n]` arm
abbrev pub two_words : Text → Text → Text → PkgMeta → Result MetaError PkgMeta
two_words line w n m =
    if text_eq w (codes "name") then ok (with_name n m) else err (unknown_line line)

-- The `["caps", c, r]` arm
abbrev pub three_words : Text → Text → Text → Text → PkgMeta → Result MetaError PkgMeta
three_words line w c r m =
    if text_eq w (codes "caps")
    then (if text_eq r (codes "required")
        then ok (with_cap c true m)
        else if text_eq r (codes "optional")
        then ok (with_cap c false m)
        else err (bad_caps_entry r))
    else err (unknown_line line)

-- The `["bin", n, "=", path]` arm
abbrev pub four_words : Text → Text → Text → Text → Text → PkgMeta → Result MetaError PkgMeta
four_words line w n eq path m =
    if text_eq w (codes "bin") && text_eq eq (codes "=")
    then ok (with_bin n path m)
    else err (unknown_line line)

-- `match toks.as_slice() { … }`
abbrev pub match_words : Text → List Text → PkgMeta → Result MetaError PkgMeta
match_words line (w ∷ n ∷ []) m = two_words line w n m
match_words line (w ∷ c ∷ r ∷ []) m = three_words line w c r m
match_words line (w ∷ n ∷ eq ∷ path ∷ []) m = four_words line w n eq path m
match_words line _ m = err (unknown_line line)

-- One round of `parse_nkpkg`
unfoldable pub meta_line : Text → PkgMeta → Result MetaError PkgMeta
meta_line [] m = ok m
meta_line (c ∷ s) m = match_words (c ∷ s) (words (c ∷ s)) m

unfoldable pub meta_lines : List Text → PkgMeta → Result MetaError PkgMeta
unfolding meta_line
meta_lines [] m = ok m
meta_lines (line ∷ rest) m = do next ← meta_line (stripped line) m; meta_lines rest next

-- `parse_nkpkg`
unfoldable pub parse_nkpkg : Text → Result MetaError PkgMeta
unfolding meta_lines
parse_nkpkg src = meta_lines (lines src) empty_meta
