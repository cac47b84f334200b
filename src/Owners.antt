-- ===== src/Owners.antt =====
-- crates/koprs/src/owners.rs: owner references, object references, and the mappers from labels to
-- owners. The type parameter of an `ObjectRef` is left out.
pub mod References
pub mod Mappers
pub mod Examples
use koprs.Prelude.{
  String, Bool, true, false, Option, none, some, List, [], ◌∷◌, ◌++◌, is_empty, if◌then◌else◌,
  Result, ok, err, ok_or,
}
use koprs.Prelude.Fallible.{◌>>=◌}
use koprs.Prelude.Maps.{get}
use koprs.Prelude.Tasks.{Task}
use koprs.Error.{KubeError, KubeGenericError, kube, missing_metadata}
use koprs.Kube.{OwnerReference, ObjectMeta, KubeResource, ApiServer}
use koprs.Scope.{Scope, into_api}

pub record ObjectRef : Type 0 where
  pub name : String
  pub namespace : Option String

-- `ObjectRef::new` and `within`.
abbrev pub new : String → ObjectRef
new name = record { name = name; namespace = none }

abbrev pub within : ObjectRef → String → ObjectRef
within r ns = record r { namespace = some ns }

-- `labels()`: the empty map if there are none.
abbrev pub labels_of : ObjectMeta → List (String × String)
labels_of m = elim m.labels [ none ↦ [] | some l ↦ l ]

abbrev pub non_empty : Option String → Option String
non_empty none = none
non_empty (some s) = if is_empty s then none else some s

abbrev pub or_else : Option String → Option String → Option String
or_else none b = b
or_else (some a) b = some a

abbrev pub within_opt : ObjectRef → Option String → ObjectRef
within_opt r none = r
within_opt r (some ns) = within r ns

-- `?` of an `Option`.
abbrev pub and_then : {A B : Type 0} → Option A → (A → Option B) → Option B
and_then none f = none
and_then (some a) f = f a

module _ {T : Type 0} (k : KubeResource T) where
  unfoldable pub build_owner_ref : T → Bool → Result KubeGenericError OwnerReference
  build_owner_ref owner controller = do
    name ← ok_or (k.meta owner).name (missing_metadata "name")
    uid ← ok_or (k.meta owner).uid (missing_metadata "uid")
    ok (record {
      api_version = k.api_version;
      kind = k.kind;
      name = name;
      uid = uid;
      controller = some controller;
      block_owner_deletion = some controller;
    })

  unfoldable pub owner_ref : T → Result KubeGenericError OwnerReference
  unfolding build_owner_ref
  owner_ref owner = build_owner_ref owner false

  unfoldable pub controller_ref : T → Result KubeGenericError OwnerReference
  unfolding build_owner_ref
  controller_ref owner = build_owner_ref owner true

  unfoldable pub set_owner_refs : T → List OwnerReference → T
  set_owner_refs child refs =
      k.set_meta child (record (k.meta child) { owner_references = some refs })

  -- The loop of `build_object_refs`, with the vector that it fills.
  unfoldable pub push_refs : List T → List ObjectRef → Result KubeGenericError (List ObjectRef)
  push_refs [] refs = ok refs
  push_refs (r ∷ rs) refs = do
    name ← ok_or (k.meta r).name (missing_metadata "name")
    push_refs rs (refs ++ within_opt (new name) (k.meta r).namespace ∷ [])

  unfoldable pub make_object_refs :
      {W : Type 0} → ApiServer W T → Scope → Task W KubeGenericError (List ObjectRef)
  unfolding push_refs
  make_object_refs server scope w =
      let listed = server.list (into_api scope) none w in
      (elim listed.0 [ err e ↦ err (kube e) | ok items ↦ push_refs items [] ], listed.1)

  unfoldable pub owner_label_mapper : String → T → Option ObjectRef
  owner_label_mapper label r = and_then (get label (labels_of (k.meta r))) (λ owner.
      and_then (k.meta r).namespace
        (λ ns. if is_empty owner then none else some (within (new owner) ns)))

  unfoldable pub owner_labels_mapper : String → String → T → Option ObjectRef
  owner_labels_mapper name_label namespace_label r =
      and_then (non_empty (get name_label (labels_of (k.meta r)))) (λ owner.
        and_then
          (or_else (non_empty (get namespace_label (labels_of (k.meta r)))) (k.meta r).namespace)
          (λ ns. some (within (new owner) ns)))

-- `make_object_ref_mapper`: every trigger points to all the references.
unfoldable pub make_object_ref_mapper : {T R : Type 0} → List R → T → List R
make_object_ref_mapper refs trigger = refs
