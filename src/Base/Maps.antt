-- ===== src/Base/Maps.antt =====
-- A `HashMap<String, V>` as an association list: `get`, `insert` and `remove`.
use mathlib.Core.List.{List, [], ◌∷◌}
use mathlib.Core.Option.{Option, none, some}
use nmerkar.Base.Tests.{if◌then◌else◌}
use nmerkar.Base.Texts.{Text, text_eq}

module _ {V : Type 0} where
  unfoldable pub lookup : Text → List (Text × V) → Option V
  unfolding text_eq
  lookup k [] = none
  lookup k ((j, v) ∷ m) = if text_eq j k then some v else lookup k m

  unfoldable pub insert : Text → V → List (Text × V) → List (Text × V)
  unfolding text_eq
  insert k v [] = (k, v) ∷ []
  insert k v ((j, w) ∷ m) = if text_eq j k then (k, v) ∷ m else (j, w) ∷ insert k v m

  unfoldable pub remove : Text → List (Text × V) → List (Text × V)
  unfolding text_eq
  remove k [] = []
  remove k ((j, w) ∷ m) = if text_eq j k then remove k m else (j, w) ∷ remove k m
