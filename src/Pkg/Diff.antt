-- ===== src/Pkg/Diff.antt =====
-- comp/src/pkg.rs: the summary of what changed between two trees.
use nmerkar.Base.{
  ℕ, ◌+◌, ltb, Bool, true, false, not, List, [], ◌∷◌, ◌++◌, map, take, length, Option, none, some,
  Text, codes, text_eq, lookup, insert, if◌then◌else◌,
}
use nmerkar.Base.Decimal.{decimal}

abbrev pub Tree : Type 0
Tree = List (Text × Text)

-- `iter().map(|(r, s)| (r, s)).collect()`
unfoldable pub tree_map : List (Text × Text) → List (Text × Text) → List (Text × Text)
unfolding insert
tree_map m [] = m
tree_map m ((r, s) ∷ rest) = tree_map (insert r s m) rest

abbrev is_none : Option Text → Bool
is_none none = true
is_none (some _) = false

abbrev differs : Text → Option Text → Bool
unfolding text_eq
differs s none = false
differs s (some os) = not (text_eq os s)

-- The paths of a tree that another has not, and those that it has with other contents
unfoldable pub missing : List (Text × Text) → List (Text × Text) → List Text
unfolding lookup
missing m [] = []
missing m ((r, s) ∷ rest) = if is_none (lookup r m) then r ∷ missing m rest else missing m rest

unfoldable pub changes : List (Text × Text) → List (Text × Text) → List Text
unfolding lookup differs
changes m [] = []
changes m ((r, s) ∷ rest) = if differs s (lookup r m) then r ∷ changes m rest else changes m rest

abbrev marked : ℕ → List Text → Text
marked sign [] = []
marked sign (r ∷ rest) = (b' ' ∷ sign ∷ r) ++ marked sign rest

abbrev ellipsis : Bool → Text
ellipsis true = codes " …"
ellipsis false = []

-- The text of a difference, which names five paths of each kind at most.
unfoldable pub summary : List Text → List Text → List Text → Text
unfolding decimal
summary [] [] [] = []
summary added removed changed =
    codes " ("
    ++ (decimal (length added)
        ++ (codes " added, "
            ++ (decimal (length removed)
                ++ (codes " removed, "
                    ++ (decimal (length changed)
                        ++ (codes " changed:"
                            ++ (marked b'+' (take 5 added)
                                ++ (marked b'-' (take 5 removed)
                                    ++ (marked b'~' (take 5 changed)
                                        ++ (ellipsis (
                                              ltb 15
                                                (length added + length removed + length changed))
                                            ++ codes ")"))))))))))

abbrev path_of : Text × Text → Text
path_of (r, s) = r

-- `tree_diff`
unfoldable pub tree_diff : Option (List (Text × Text)) → List (Text × Text) → Text
unfolding summary missing changes tree_map
tree_diff none new = summary (map path_of new) [] []
tree_diff (some old) new =
    summary (missing (tree_map [] old) new) (missing (tree_map [] new) old)
      (changes (tree_map [] old) new)
