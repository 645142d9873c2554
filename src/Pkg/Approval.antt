-- ===== src/Pkg/Approval.antt =====
-- comp/src/pkg.rs: the approvals file `.nk/approvals`.
use nmerkar.Base.{
  Bool, ◌&&◌, List, [], ◌∷◌, ◌++◌, Option, none, some, Text, codes, text_eq, strip_prefix, lookup,
  lines, any,
}
use nmerkar.Pkg.Lock.{stripped, parse_kv_fields, field_or}

-- `Approval`
pub record Approval : Type 0 where
  pub source : Text
  pub root : Text
  pub date : Text
  pub by : Text
  pub key : Option Text

-- An approval needs a source and a root.
abbrev pub approval_of : List (Text × Text) → Option Text → Option Text → List Approval
approval_of f (some source) (some root) =
    record {
      source = source;
      root = root;
      date = field_or (codes "date") [] f;
      by = field_or (codes "by") (codes "?") f;
      key = lookup (codes "key") f;
    }
    ∷ []
approval_of f _ _ = []

-- A line behind the word `approve`; any other is skipped.
abbrev pub approval_line : Option Text → List Approval
unfolding parse_kv_fields
approval_line none = []
approval_line (some rest) =
    let f = parse_kv_fields rest in
    approval_of f (lookup (codes "source") f) (lookup (codes "root") f)

unfoldable pub approval_lines : List Text → List Approval
unfolding parse_kv_fields
approval_lines [] = []
approval_lines (line ∷ rest) =
    approval_line (strip_prefix (codes "approve ") (stripped line)) ++ approval_lines rest

-- `parse_approvals`
unfoldable pub parse_approvals : Text → List Approval
unfolding approval_lines
parse_approvals src = approval_lines (lines src)

-- `approved`
unfoldable pub approved : List Approval → Text → Text → Bool
approved approvals id root = any (λ a. text_eq a.source id && text_eq a.root root) approvals
