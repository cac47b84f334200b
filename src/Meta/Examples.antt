-- ===== src/Meta/Examples.antt =====
-- crates/koprs/src/meta.rs: concrete metadata.
use koprs.Prelude.{◌≡◌, refl, String, some, List, [], ◌∷◌}
use koprs.Prelude.Maps.{insert}
use koprs.Meta
use koprs.Meta.{ObjectMetaBuilder, labels, build}

abbrev pairs : List (String × String)
pairs = ("app", "a") ∷ ("tier", "web") ∷ ("app", "b") ∷ []

built : (build (labels Meta.new pairs)).labels ≡ some (("app", "b") ∷ ("tier", "web") ∷ [])
unfolding build labels Meta.new insert
built = refl
