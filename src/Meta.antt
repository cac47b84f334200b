-- ===== src/Meta.antt =====
-- crates/koprs/src/meta.rs: the builder of object metadata.
pub mod Built
pub mod Examples
use koprs.Prelude.{String, Option, none, some, List, [], ◌∷◌, ◌++◌, null, if◌then◌else◌}
use koprs.Prelude.Maps.{insert}
use koprs.Kube.{OwnerReference, ObjectMeta, default_meta}

pub record ObjectMetaBuilder : Type 0 where
  pub name : Option String
  pub namespace : Option String
  pub labels : List (String × String)
  pub annotations : List (String × String)
  pub owner_references : List OwnerReference

unfoldable pub new : ObjectMetaBuilder
new = record { name = none; namespace = none; labels = []; annotations = []; owner_references = [] }

unfoldable pub name : ObjectMetaBuilder → String → ObjectMetaBuilder
name b n = record b { name = some n }

unfoldable pub namespace : ObjectMetaBuilder → String → ObjectMetaBuilder
namespace b ns = record b { namespace = some ns }

unfoldable pub label : ObjectMetaBuilder → String → String → ObjectMetaBuilder
label b key value = record b { labels = insert key value b.labels }

unfoldable pub labels : ObjectMetaBuilder → List (String × String) → ObjectMetaBuilder
labels b [] = b
labels b ((k, v) ∷ pairs) = labels (record b { labels = insert k v b.labels }) pairs

unfoldable pub annotation : ObjectMetaBuilder → String → String → ObjectMetaBuilder
annotation b key value = record b { annotations = insert key value b.annotations }

unfoldable pub owner_ref : ObjectMetaBuilder → OwnerReference → ObjectMetaBuilder
owner_ref b r = record b { owner_references = b.owner_references ++ r ∷ [] }

-- An empty collection is left out.
abbrev pub some_unless_empty : {A : Type 0} → List A → Option (List A)
some_unless_empty xs = if null xs then none else some xs

unfoldable pub build : ObjectMetaBuilder → ObjectMeta
build b = record default_meta {
  name = b.name;
  namespace = b.namespace;
  labels = some_unless_empty b.labels;
  annotations = some_unless_empty b.annotations;
  owner_references = some_unless_empty b.owner_references;
}
