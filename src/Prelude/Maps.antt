-- ===== src/Prelude/Maps.antt =====
-- A map as an association list: a lookup takes the first entry of its key, and an insertion
-- replaces it.
use Prim.Native.String.{String}
use mathlib.Core.Path.{◌≡◌, refl}
use mathlib.Core.Option.{Option, none, some}
use mathlib.Core.List.{List, [], ◌∷◌}
use native.Mathlib.Omega.{arith}
use text.Mathlib.Text.{◌==◌ as str_eq}
use text.Mathlib.TextEquality.{eq_iff}
use koprs.Prelude.Tests.{if◌then◌else◌}

module _ {V : Type 0} where
  unfoldable pub get : String → List (String × V) → Option V
  get k [] = none
  get k ((j, v) ∷ m) = if str_eq j k then some v else get k m

  unfoldable pub insert : String → V → List (String × V) → List (String × V)
  insert k v [] = (k, v) ∷ []
  insert k v ((j, w) ∷ m) = if str_eq j k then (k, v) ∷ m else (j, w) ∷ insert k v m

-- No key stands twice.
abbrev pub IsUnique : {V : Type 0} → List (String × V) → Type 0
IsUnique [] = Unit {0}
IsUnique ((k, v) ∷ m) = (get k m ≡ none) × IsUnique m

module _ {V : Type 0} where
  pub get-insert :
      (k j : String) (v : V) (m : List (String × V))
      → get k (insert j v m) ≡ (if str_eq j k then some v else get k m)
  unfolding get insert
  get-insert k j v [] = refl
  get-insert k j v ((i, w) ∷ m) =
      ground (arith, get-insert k j v m, eq_iff i j, eq_iff i k, eq_iff j k)

  pub insert-IsUnique :
      (j : String) (v : V) (m : List (String × V)) → IsUnique m → IsUnique (insert j v m)
  unfolding get insert
  insert-IsUnique j v [] h = (refl, tt)
  insert-IsUnique j v ((i, w) ∷ m) h =
      ground (arith, insert-IsUnique j v m h.1, get-insert i j v m, eq_iff i j, eq_iff j i)
