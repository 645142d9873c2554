-- ===== src/Sandbox/Ufs.antt =====
-- comp/src/sandbox.rs: the parser of sandbox files.
pub mod Kept
use mathlib.Core.List.{reverse}
use nmerkar.Base.{
  ℕ, suc, ◌+◌, Bool, true, false, List, [], ◌∷◌, ◌++◌, Option, none, some, Text, codes, text_eq,
  strip_prefix, if◌then◌else◌, ◌==◌, trim, before_first, is_whitespace, lines, words, lookup,
  insert,
}
use nmerkar.Base.Results.{Result, ok, err, ◌>>=◌}
use nmerkar.Sandbox.Resolve.{Rules, no_rules}
use nmerkar.Sandbox.Effective.{SandboxFile}

-- The `user_err!` exits, with the line.
pub data UfsError : Type 0 where
  unknown_key : ℕ → Text → UfsError
  empty_policy : ℕ → UfsError
  duplicate_policy : ℕ → Text → UfsError

-- `line.split(';').next().unwrap_or("").trim()`
abbrev pub stripped : Text → Text
stripped line = trim (before_first b';' line)

abbrev pub after_key : ℕ → Text × Text → Text × Text
after_key c (k, v) = (c ∷ k, v)

-- `line.split_once(char::is_whitespace)`, or the whole line and nothing.
unfoldable pub key_and_rest : Text → Text × Text
key_and_rest [] = ([], [])
key_and_rest (c ∷ s) = if is_whitespace c then ([], s) else after_key c (key_and_rest s)

unfoldable pub skip_all : ℕ → Text → Text
skip_all q [] = []
skip_all q (c ∷ s) = if c == q then skip_all q s else c ∷ s

-- `trim_end_matches(q)`
abbrev pub trim_end_matches : ℕ → Text → Text
unfolding skip_all
trim_end_matches q s = reverse (skip_all q (reverse s))

-- `trim_matches(q)`
abbrev pub trim_matches : ℕ → Text → Text
unfolding skip_all
trim_matches q s = trim_end_matches q (skip_all q s)

-- `.map(|v| v.trim_matches('"').to_string()).collect()`
unfoldable pub unquoted : List Text → List Text
unfolding skip_all
unquoted [] = []
unquoted (v ∷ vs) = trim_matches b'"' v ∷ unquoted vs

-- `r.deny.extend(vals)` and the like
abbrev pub with_deny : List Text → Rules → Rules
with_deny vs r = record {
  allow = r.allow;
  deny = r.deny ++ vs;
  workspace = r.workspace;
  allow_module = r.allow_module;
  deny_module = r.deny_module;
}

abbrev pub with_allow : List Text → Rules → Rules
with_allow vs r = record {
  allow = r.allow ++ vs;
  deny = r.deny;
  workspace = r.workspace;
  allow_module = r.allow_module;
  deny_module = r.deny_module;
}

abbrev pub with_workspace : List Text → Rules → Rules
with_workspace vs r = record {
  allow = r.allow;
  deny = r.deny;
  workspace = r.workspace ++ vs;
  allow_module = r.allow_module;
  deny_module = r.deny_module;
}

abbrev pub with_allow_module : List Text → Rules → Rules
with_allow_module vs r = record {
  allow = r.allow;
  deny = r.deny;
  workspace = r.workspace;
  allow_module = r.allow_module ++ vs;
  deny_module = r.deny_module;
}

abbrev pub with_deny_module : List Text → Rules → Rules
with_deny_module vs r = record {
  allow = r.allow;
  deny = r.deny;
  workspace = r.workspace;
  allow_module = r.allow_module;
  deny_module = r.deny_module ++ vs;
}

-- The rules and the name so far.
abbrev pub Parsed : Type 0
Parsed = Rules × Option Text

-- The `name` arm, with its guard.
abbrev pub set_name : ℕ → Text → List Text → Parsed → Result UfsError Parsed
set_name n key (v ∷ []) p = ok (p.0, some v)
set_name n key _ p = err (unknown_key n key)

-- `match key { … }`
unfoldable pub apply_key : ℕ → Text → List Text → Parsed → Result UfsError Parsed
apply_key n key vs (r, name) =
    if text_eq key (codes "deny")
    then ok (with_deny vs r, name)
    else if text_eq key (codes "allow")
    then ok (with_allow vs r, name)
    else if text_eq key (codes "workspace")
    then ok (with_workspace vs r, name)
    else if text_eq key (codes "allow-module")
    then ok (with_allow_module vs r, name)
    else if text_eq key (codes "deny-module")
    then ok (with_deny_module vs r, name)
    else if text_eq key (codes "name")
    then set_name n key vs (r, name)
    else err (unknown_key n key)

-- One round of `parse_rules` on a line without its comment.
unfoldable pub rule_line : ℕ → Text → Parsed → Result UfsError Parsed
unfolding apply_key key_and_rest unquoted
rule_line n [] p = ok p
rule_line n (c ∷ s) p =
    apply_key n (key_and_rest (c ∷ s)).0 (unquoted (words (trim (key_and_rest (c ∷ s)).1))) p

unfoldable pub rule_lines : List (ℕ × Text) → Parsed → Result UfsError Parsed
unfolding rule_line
rule_lines [] p = ok p
rule_lines ((n, line) ∷ rest) p = do q ← rule_line n (stripped line) p; rule_lines rest q

-- `parse_rules`
unfoldable pub parse_rules : List (ℕ × Text) → Result UfsError Parsed
unfolding rule_lines
parse_rules ls = rule_lines ls (no_rules, none)

abbrev pub or_else : Option Text → Option Text → Option Text
or_else (some n) old = some n
or_else none old = old

-- What `flush` does to the file: the section is the one of a policy, or the base.
abbrev pub flushed : Option Text → Parsed → SandboxFile → SandboxFile
flushed (some policy) (r, n) sf = record {
  base = sf.base;
  policies = insert policy r sf.policies;
  name = sf.name;
}
flushed none (r, n) sf = record { base = r; policies = sf.policies; name = or_else n sf.name }

unfoldable pub flush : List (ℕ × Text) → Option Text → SandboxFile → Result UfsError SandboxFile
unfolding parse_rules
flush section cur sf = do p ← parse_rules section; ok (flushed cur p sf)

abbrev pub fresh_policy : ℕ → Text → Option Rules → SandboxFile → Result UfsError SandboxFile
fresh_policy n name none sf = ok sf
fresh_policy n name (some r) sf = err (duplicate_policy n name)

-- A `[policy name]` line, its text behind `[policy `: the section so far is flushed.
unfoldable pub open_policy :
    ℕ → Text → List (ℕ × Text) → Option Text → SandboxFile → Result UfsError SandboxFile
unfolding flush
open_policy n [] section cur sf = err (empty_policy n)
open_policy n (c ∷ name) section cur sf = do
  next ← flush section cur sf
  fresh_policy n (c ∷ name) (lookup (c ∷ name) next.policies) next

-- `name.trim_end_matches(']').trim()`
abbrev pub policy_name_of : Text → Text
unfolding skip_all
policy_name_of rest = trim (trim_end_matches b']' rest)

-- The loop of `parse_ufs` from line `n` on: the section, the open policy and the file so far.
unfoldable pub ufs_lines :
    List Text → ℕ → List (ℕ × Text) → Option Text → SandboxFile → Result UfsError SandboxFile
unfolding open_policy
ufs_lines [] n section cur sf = flush section cur sf
ufs_lines (raw ∷ rest) n section cur sf = elim (strip_prefix (codes "[policy ") (trim raw)) [
  | none ↦ ufs_lines rest (n + 1) (section ++ ((n, raw) ∷ [])) cur sf
  | some tail ↦ do
    next ← open_policy n (policy_name_of tail) section cur sf
    ufs_lines rest (n + 1) [] (some (policy_name_of tail)) next
]

abbrev pub empty_file : SandboxFile
empty_file = record { base = no_rules; policies = []; name = none }

-- `parse_ufs`
unfoldable pub parse_ufs : Text → Result UfsError SandboxFile
unfolding ufs_lines
parse_ufs src = ufs_lines (lines src) 1 [] none empty_file
