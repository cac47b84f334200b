-- ===== src/Meta/Built.antt =====
-- crates/koprs/src/meta.rs: the labels of built metadata.
use koprs.Prelude.{
  ◌≡◌, refl, ap, ◌∙◌, String, Option, none, some, List, [], ◌∷◌, str_eq, if◌then◌else◌,
}
use koprs.Prelude.Maps.{get, insert, get-insert}
use koprs.Meta.{ObjectMetaBuilder, labels, build, some_unless_empty}

-- The last value that a list of pairs gives to a key.
unfoldable pub last_value : String → List (String × String) → Option String → Option String
last_value key [] before = before
last_value key ((k, v) ∷ pairs) before =
    last_value key pairs (if str_eq k key then some v else before)

-- The label of a key in an object's metadata.
abbrev pub label_of : String → Option (List (String × String)) → Option String
label_of key none = none
label_of key (some m) = get key m

label_of-some_unless_empty :
    (key : String) (m : List (String × String)) → label_of key (some_unless_empty m) ≡ get key m
unfolding get
label_of-some_unless_empty key [] = refl
label_of-some_unless_empty key (x ∷ m) = refl

get-labels :
    (key : String) (b : ObjectMetaBuilder) (pairs : List (String × String))
    → get key (labels b pairs).labels ≡ last_value key pairs (get key b.labels)
unfolding labels last_value
get-labels key b [] = refl
get-labels key b ((k, v) ∷ pairs) =
    get-labels key (record b { labels = insert k v b.labels }) pairs
    ∙ ap (last_value key pairs) (get-insert key k v b.labels)

-- Metadata that is built after `labels` has under each key the last value that the pairs give to
-- it, and otherwise the value that the builder had.
pub build-labels :
    (key : String) (b : ObjectMetaBuilder) (pairs : List (String × String))
    → label_of key (build (labels b pairs)).labels ≡ last_value key pairs (get key b.labels)
unfolding build
build-labels key b pairs =
    label_of-some_unless_empty key (labels b pairs).labels ∙ get-labels key b pairs
