-- ===== src/Sandbox/Bake.antt =====
-- comp/src/sandbox.rs: the C text of a capability set, and its description.
pub mod Escape
pub mod Roots
use nmerkar.Base.{
  ℕ, suc, ◌+◌, Bool, true, false, List, [], ◌∷◌, ◌++◌, Option, none, some, Text, codes, text_eq,
  if◌then◌else◌, ◌==◌, take, length,
}
use nmerkar.Base.Decimal.{decimal}
use nmerkar.Sandbox.Pattern.{cap_names}
use nmerkar.Sandbox.Caps.{Caps, cap, cap_i64}

-- `c_escape`
unfoldable pub c_escape : Text → Text
c_escape [] = []
c_escape (c ∷ s) =
    let rest = c_escape s in
    if c == b'\\'
    then b'\\' ∷ b'\\' ∷ rest
    else if c == b'"'
    then b'\\' ∷ b'"' ∷ rest
    else if c == 10
    then b'\\' ∷ b'n' ∷ rest
    else c ∷ rest

-- `as i64` of a Boolean, printed
abbrev pub bit : Bool → Text
bit true = codes "1"
bit false = codes "0"

-- `name="value";` on a line
abbrev pub c_text : Text → Text → Text
unfolding c_escape
c_text name value = name ++ (codes "=\"" ++ (c_escape value ++ codes "\";\n"))

-- A line for each value of a list
unfoldable pub c_texts : Text → List Text → Text
unfolding c_escape
c_texts name [] = []
c_texts name (v ∷ vs) = c_text name v ++ c_texts name vs

-- `uf_sb_caps[i]=v;` for each capability from index `i` on
unfoldable pub c_caps : Caps → ℕ → List Text → Text
unfolding cap_i64
c_caps c i [] = []
c_caps c i (name ∷ names) =
    codes "uf_sb_caps["
    ++ (decimal i
        ++ (codes "]=" ++ (bit (cap_i64 c name) ++ (codes ";\n" ++ c_caps c (i + 1) names))))

-- `CAP_NAMES.iter().position(|c| c == r)`
unfoldable pub position : Text → List Text → Option ℕ
position r [] = none
position r (c ∷ cs) =
    let rest = position r cs in
    if text_eq c r then some 0 else elim rest [ none ↦ none | some i ↦ some (suc i) ]

abbrev pub c_required : Text → Option ℕ → Text
unfolding c_escape
c_required alias none = []
c_required alias (some i) =
    codes "uf_req_one(\"" ++ (c_escape alias ++ (codes "\"," ++ (decimal i ++ codes ");\n")))

unfoldable pub c_requireds : Text → List Text → Text
unfolding c_escape position
c_requireds alias [] = []
c_requireds alias (r ∷ rs) = c_required alias (position r cap_names) ++ c_requireds alias rs

unfoldable pub c_packages : List (Text × List Text) → Text
unfolding c_requireds
c_packages [] = []
c_packages ((alias, rs) ∷ ps) = c_requireds alias rs ++ c_packages ps

abbrev pub or_nothing : Option (List Text) → List Text
or_nothing none = []
or_nothing (some xs) = xs

-- The first 32 modules of an allow list; without a list, -1.
abbrev pub c_allowed : Option (List Text) → Text
unfolding c_texts
c_allowed none = codes "uf_mod_allow_n=-1;\n"
c_allowed (some ms) =
    codes "uf_mod_allow_n=0;\n" ++ c_texts (codes "uf_mod_allow[uf_mod_allow_n++]") (take 32 ms)

-- `c_bake`
unfoldable pub c_bake : Caps → Text → List (Text × List Text) → Text
unfolding c_texts c_caps c_packages
c_bake c device required =
    codes "uf_sb_on="
    ++ (bit c.is_sandboxed
        ++ (codes ";\n"
            ++ (c_text (codes "uf_sb_policy") c.policy_name
                ++ (c_text (codes "uf_device") device
                    ++ (codes "{int _i;for(_i=0;_i<"
                        ++ (decimal (length cap_names)
                            ++ (codes ";_i++)uf_sb_caps[_i]=1;}\n"
                                ++ (c_caps c 0 cap_names
                                    ++ (codes "uf_rt_ceiling();\n"
                                        ++ (c_packages required
                                            ++ (codes "uf_ws_nroots=0;\n"
                                                ++ (c_texts (codes "uf_ws_roots[uf_ws_nroots++]")
                                                      (take 16 (or_nothing c.workspace))
                                                    ++ (c_allowed c.module_allow
                                                        ++ (codes "uf_mod_deny_n=0;\n"
                                                            ++ c_texts
                                                            (codes "uf_mod_deny[uf_mod_deny_n++]")
                                                            (take 32 c.module_deny)))))))))))))))

-- `key=value` on a line for each value
unfoldable pub entries : Text → List Text → Text
entries key [] = []
entries key (v ∷ vs) = key ++ (codes "=" ++ (v ++ (codes "\n" ++ entries key vs)))

unfoldable pub cap_entries : Caps → List Text → Text
unfolding cap
cap_entries c [] = []
cap_entries c (n ∷ ns) = n ++ (codes "=" ++ (bit (cap c n) ++ (codes "\n" ++ cap_entries c ns)))

abbrev pub is_given : Option (List Text) → Bool
is_given none = false
is_given (some xs) = true

abbrev pub allow_entries : Option (List Text) → Text
unfolding entries
allow_entries none = codes "module_allow=*\n"
allow_entries (some ms) = entries (codes "module_allow") ms

-- `Caps::describe`
unfoldable pub describe : Caps → Text
unfolding entries cap_entries
describe c =
    codes "policy="
    ++ (c.policy_name
        ++ (codes "\norigin="
            ++ (c.origin
                ++ (codes "\n"
                    ++ (cap_entries c cap_names
                        ++ (codes "fs.workspace="
                            ++ (bit (is_given c.workspace)
                                ++ (codes "\n"
                                    ++ (entries (codes "workspace") (or_nothing c.workspace)
                                        ++ (allow_entries c.module_allow
                                            ++ entries (codes "module_deny") c.module_deny))))))))))
