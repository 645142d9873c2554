-- ===== src/Sandbox/Ufs/Kept.antt =====
-- comp/src/sandbox.rs: no rule of a sandbox file is lost, and none is made up.
use nmerkar.Base.{
  ℕ, ◌≡◌, refl, sym, ap, ◌∙◌, Bool, true, false, List, [], ◌∷◌, ◌++◌, Option, none, some, Text,
  codes, if◌then◌else◌, text_eq, text_eq_iff, words, trim,
}
use nmerkar.Base.Results.{ok, err, >>=-eq-ok}
use nmerkar.Sandbox.Resolve.{Rules, no_rules}
use nmerkar.Sandbox.Ufs.{
  unknown_key, with_deny, with_allow, with_workspace, with_allow_module, with_deny_module, stripped,
  key_and_rest, unquoted, Parsed, apply_key, set_name, rule_line, rule_lines, parse_rules,
}

-- The values of a line whose key is `key`.
abbrev pub line_values : Text → Text → List Text
line_values key [] = []
line_values key (c ∷ s) =
    if text_eq (key_and_rest (c ∷ s)).0 key
    then unquoted (words (trim (key_and_rest (c ∷ s)).1))
    else []

-- The values of the lines with that key, in their order.
abbrev pub values : Text → List (ℕ × Text) → List Text
values key [] = []
values key ((n, line) ∷ rest) = line_values key (stripped line) ++ values key rest

abbrev Adds : Text → List Text → Rules → Rules → Type 0
Adds key vs r q =
    (q.deny ≡ r.deny ++ (if text_eq key (codes "deny") then vs else []))
    × (q.allow ≡ r.allow ++ (if text_eq key (codes "allow") then vs else []))

append_nil : {A : Type 0} (xs : List A) → xs ≡ xs ++ []
append_nil [] = refl
append_nil (x ∷ xs) = ap (◌∷◌ x) (append_nil xs)

set_name-Adds :
    (n : ℕ) (key : Text) (vs : List Text) (r : Rules) (name : Option Text) (q : Parsed)
    → set_name n key vs (r, name) ≡ ok q
    → q.0 ≡ r
set_name-Adds n key [] r name q h = absurd cc
set_name-Adds n key (v ∷ []) r name q h = let k : (r, some v) ≡ q = cc in sym (ap (λ x. x.0) k)
set_name-Adds n key (v ∷ w ∷ vs) r name q h = absurd cc

-- The arms of `match key`, by the tests of their keys.
arms :
    (d a w m x y : Bool) (n : ℕ) (key : Text) (vs : List Text) (r : Rules) (name : Option Text)
    (q : Parsed)
    → (d ≡ true → a ≡ false)
    → (if d
        then ok (with_deny vs r, name)
        else if a
        then ok (with_allow vs r, name)
        else if w
        then ok (with_workspace vs r, name)
        else if m
        then ok (with_allow_module vs r, name)
        else if x
        then ok (with_deny_module vs r, name)
        else if y
        then set_name n key vs (r, name)
        else err (unknown_key n key))
      ≡ ok q
    → (q.0.deny ≡ r.deny ++ (if d then vs else []))
      × (q.0.allow ≡ r.allow ++ (if a then vs else []))
arms true true w m x y n key vs r name q e h = let k : true ≡ false = e refl in absurd cc
arms true false w m x y n key vs r name q e h =
    let k : (with_deny vs r, name) ≡ q = cc in
    (sym (ap (λ z. z.0.deny) k), sym (ap (λ z. z.0.allow) k) ∙ append_nil r.allow)
arms false true w m x y n key vs r name q e h =
    let k : (with_allow vs r, name) ≡ q = cc in
    (sym (ap (λ z. z.0.deny) k) ∙ append_nil r.deny, sym (ap (λ z. z.0.allow) k))
arms false false true m x y n key vs r name q e h =
    let k : (with_workspace vs r, name) ≡ q = cc in
    (
      sym (ap (λ z. z.0.deny) k) ∙ append_nil r.deny,
      sym (ap (λ z. z.0.allow) k) ∙ append_nil r.allow,
    )
arms false false false true x y n key vs r name q e h =
    let k : (with_allow_module vs r, name) ≡ q = cc in
    (
      sym (ap (λ z. z.0.deny) k) ∙ append_nil r.deny,
      sym (ap (λ z. z.0.allow) k) ∙ append_nil r.allow,
    )
arms false false false false true y n key vs r name q e h =
    let k : (with_deny_module vs r, name) ≡ q = cc in
    (
      sym (ap (λ z. z.0.deny) k) ∙ append_nil r.deny,
      sym (ap (λ z. z.0.allow) k) ∙ append_nil r.allow,
    )
arms false false false false false true n key vs r name q e h =
    let k = set_name-Adds n key vs r name q h in
    (ap (λ z. z.deny) k ∙ append_nil r.deny, ap (λ z. z.allow) k ∙ append_nil r.allow)
arms false false false false false false n key vs r name q e h = absurd cc

deny_is_not_allow :
    (key : Text) → text_eq key (codes "deny") ≡ true → text_eq key (codes "allow") ≡ false
deny_is_not_allow key h =
    ap (λ k. text_eq k (codes "allow")) ((text_eq_iff key (codes "deny")).0 h)
    ∙ (unfold text_eq in refl)

apply_key-Adds :
    (n : ℕ) (key : Text) (vs : List Text) (r : Rules) (name : Option Text) (q : Parsed)
    → apply_key n key vs (r, name) ≡ ok q
    → Adds key vs r q.0
unfolding apply_key
apply_key-Adds n key vs r name q h =
    arms (text_eq key (codes "deny")) (text_eq key (codes "allow"))
      (text_eq key (codes "workspace")) (text_eq key (codes "allow-module"))
      (text_eq key (codes "deny-module")) (text_eq key (codes "name")) n key vs r name q
      (deny_is_not_allow key) h

rule_line-values :
    (n : ℕ) (line : Text) (p q : Parsed)
    → rule_line n line p ≡ ok q
    → (q.0.deny ≡ p.0.deny ++ line_values (codes "deny") line)
      × (q.0.allow ≡ p.0.allow ++ line_values (codes "allow") line)
unfolding rule_line
rule_line-values n [] p q h =
    let k : p ≡ q = cc in
    (
      sym (ap (λ z. z.0.deny) k) ∙ append_nil p.0.deny,
      sym (ap (λ z. z.0.allow) k) ∙ append_nil p.0.allow,
    )
rule_line-values n (c ∷ s) p q h =
    apply_key-Adds n (key_and_rest (c ∷ s)).0 (unquoted (words (trim (key_and_rest (c ∷ s)).1))) p.0
      p.1 q h

append_assoc : {A : Type 0} (xs ys zs : List A) → (xs ++ ys) ++ zs ≡ xs ++ (ys ++ zs)
append_assoc [] ys zs = refl
append_assoc (x ∷ xs) ys zs = ap (◌∷◌ x) (append_assoc xs ys zs)

rule_lines-values :
    (ls : List (ℕ × Text)) (p q : Parsed)
    → rule_lines ls p ≡ ok q
    → (q.0.deny ≡ p.0.deny ++ values (codes "deny") ls)
      × (q.0.allow ≡ p.0.allow ++ values (codes "allow") ls)
unfolding rule_lines
rule_lines-values [] p q h =
    let k : p ≡ q = cc in
    (
      sym (ap (λ z. z.0.deny) k) ∙ append_nil p.0.deny,
      sym (ap (λ z. z.0.allow) k) ∙ append_nil p.0.allow,
    )
rule_lines-values ((n, line) ∷ ls) p q h =
    let (m, e, g) = >>=-eq-ok (rule_line n (stripped line) p) (rule_lines ls) h in
    let first = rule_line-values n (stripped line) p m e in
    let rest = rule_lines-values ls m q g in
    (
      rest.0 ∙ ap (λ z. z ++ values (codes "deny") ls) first.0 ∙ append_assoc p.0.deny _ _,
      rest.1 ∙ ap (λ z. z ++ values (codes "allow") ls) first.1 ∙ append_assoc p.0.allow _ _,
    )

-- Where `parse_rules` gives rules, the deny patterns are those of the lines with the key `deny`,
-- all of them in their order, and the allow patterns those of the lines with the key `allow`: no
-- line is passed over, and none adds a pattern that it does not name.
pub parse_rules-values :
    (ls : List (ℕ × Text)) (r : Rules) (name : Option Text)
    → parse_rules ls ≡ ok (r, name)
    → (r.deny ≡ values (codes "deny") ls) × (r.allow ≡ values (codes "allow") ls)
unfolding parse_rules
parse_rules-values ls r name h = rule_lines-values ls (no_rules, none) (r, name) h
