-- ===== src/Pkg/Origin.antt =====
-- comp/src/pkg.rs: where a package comes from.
pub mod Parts
use nmerkar.Base.{
  ◌≡◌, refl, ap, sym, ◌∙◌, arith, Bool, true, false, ◌||◌, not, all, any, List, [], ◌∷◌, ◌++◌,
  Option, none, some, Text, codes, text_eq, strip_prefix, strip_prefix_iff, if◌then◌else◌, ◌==◌,
  split_once,
}
use nmerkar.Base.Results.{Result, ok, err}

-- `Source`
pub data Source : Type 0 where
  gh : Text → Text → Source
  https : Text → Source
  path : Text → Source

-- The `user_err!` exits of `parse_source`.
pub data SourceError : Type 0 where
  bad_gh : Text → SourceError
  bad_path : SourceError
  bad_https : SourceError
  bad_source : Text → SourceError

-- `rest.splitn(2, '/')`, with an empty second part where there is no slash.
abbrev pub two_parts : Text → Option (Text × Text) → Text × Text
two_parts rest none = (rest, [])
two_parts rest (some p) = p

abbrev pub is_empty : Text → Bool
is_empty [] = true
is_empty (c ∷ s) = false

abbrev pub gh_source : Text → Text × Text → Result SourceError Source
gh_source id (owner, repo) =
    if is_empty owner || (is_empty repo || any (λ c. c == b'/') repo)
    then err (bad_gh id)
    else ok (gh owner repo)

abbrev pub path_source : Text → Result SourceError Source
path_source [] = err bad_path
path_source (c ∷ s) = ok (path (c ∷ s))

abbrev pub https_source : Text → Text → Result SourceError Source
https_source id [] = err bad_https
https_source id (c ∷ s) = ok (https id)

abbrev pub or_else : Option Text → Option Text → Option Text
or_else (some s) o = some s
or_else none o = o

abbrev pub url_source : Text → Option Text → Result SourceError Source
url_source id none = err (bad_source id)
url_source id (some url) = https_source id url

abbrev pub dir_source : Text → Option Text → Result SourceError Source
dir_source id (some rest) = path_source rest
dir_source id none =
    url_source id (or_else (strip_prefix (codes "https://") id) (strip_prefix (codes "http://") id))

abbrev pub any_source : Text → Option Text → Result SourceError Source
any_source id (some rest) = gh_source id (two_parts rest (split_once b'/' rest))
any_source id none = dir_source id (strip_prefix (codes "path:") id)

-- `parse_source`
unfoldable pub parse_source : Text → Result SourceError Source
parse_source id = any_source id (strip_prefix (codes "gh:") id)
