-- ===== src/Resources/Metadata.antt =====
-- crates/koprs/src/resources.rs: the merge patches of labels and annotations. The map of a patch
-- gives each key a value or null; the call that sends it is a parameter.
use koprs.Prelude.{String, Option, none, some, List, [], ◌∷◌, map_err}
use koprs.Prelude.Maps.{insert}
use koprs.Prelude.Tasks.{Task}
use koprs.Error.{KubeError, KubeGenericError, kube}
use koprs.Kube.{Target}
use koprs.Scope.{Scope, into_api}

-- Which map of `metadata` the patch is about.
pub data MetadataField : Type 0 where
  labels annotations : MetadataField

abbrev pub Entries : Type 0
Entries = List (String × Option String)

pub record MetadataPatch : Type 0 where
  pub target : MetadataField
  pub entries : Entries

-- The `collect` of the pairs, and of the keys with null: a later key replaces an earlier one.
unfoldable pub set_entries : List (String × String) → Entries → Entries
set_entries [] entries = entries
set_entries ((k, v) ∷ pairs) entries = set_entries pairs (insert k (some v) entries)

unfoldable pub null_entries : List String → Entries → Entries
null_entries [] entries = entries
null_entries (k ∷ keys) entries = null_entries keys (insert k none entries)

module _ {W T : Type 0} (send : Target → String → MetadataPatch → Task W KubeError T) where
  unfoldable pub patch_metadata : Target → String → MetadataPatch → Task W KubeGenericError T
  patch_metadata target name patch w =
      (map_err kube (send target name patch w).0, (send target name patch w).1)

  unfoldable pub patch_labels : Scope → String → List (String × String) → Task W KubeGenericError T
  unfolding patch_metadata set_entries
  patch_labels scope name pairs =
      patch_metadata (into_api scope) name
        (record { target = labels; entries = set_entries pairs [] })

  unfoldable pub patch_annotations :
      Scope → String → List (String × String) → Task W KubeGenericError T
  unfolding patch_metadata set_entries
  patch_annotations scope name pairs =
      patch_metadata (into_api scope) name
        (record { target = annotations; entries = set_entries pairs [] })

  unfoldable pub remove_labels : Scope → String → List String → Task W KubeGenericError T
  unfolding patch_metadata null_entries
  remove_labels scope name keys =
      patch_metadata (into_api scope) name
        (record { target = labels; entries = null_entries keys [] })

  unfoldable pub remove_annotations : Scope → String → List String → Task W KubeGenericError T
  unfolding patch_metadata null_entries
  remove_annotations scope name keys =
      patch_metadata (into_api scope) name
        (record { target = annotations; entries = null_entries keys [] })
