-- ===== src/Kube.antt =====
-- The parts of kube and k8s_openapi that the source reads or writes: object metadata, the target of
-- a call (`Api::all`, `Api::namespaced`), its parameters, and the API server, which is a parameter:
-- a record of calls over an environment `W`. Also crates/koprs/src/traits.rs, the trait of a
-- resource. A Rust `BTreeMap` is an association list; a timestamp and a resource version are
-- opaque numbers.
use koprs.Prelude.{ℕ, String, Bool, Option, none, List, ℤ, is_some, some}
use koprs.Prelude.Tasks.{Task}
use koprs.Error.{KubeError}

pub record OwnerReference : Type 0 where
  pub api_version : String
  pub kind : String
  pub name : String
  pub uid : String
  pub controller : Option Bool
  pub block_owner_deletion : Option Bool

pub record ObjectMeta : Type 0 where
  pub name : Option String
  pub namespace : Option String
  pub uid : Option String
  pub resource_version : Option ℕ
  pub generation : Option ℤ
  pub deletion_timestamp : Option ℕ
  pub labels : Option (List (String × String))
  pub annotations : Option (List (String × String))
  pub owner_references : Option (List OwnerReference)
  pub finalizers : Option (List String)

-- `ObjectMeta::default()`.
abbrev pub default_meta : ObjectMeta
default_meta = record {
  name = none;
  namespace = none;
  uid = none;
  resource_version = none;
  generation = none;
  deletion_timestamp = none;
  labels = none;
  annotations = none;
  owner_references = none;
  finalizers = none;
}

-- `name_any()`: the name, or the prefix of a generated one, which a listed object does not lack.
abbrev pub name_any : ObjectMeta → String
name_any m = elim m.name [ none ↦ "" | some n ↦ n ]

-- The trait `KubeResource`.
pub record KubeResource (T : Type 0) : Type 0 where
  pub api_version : String
  pub kind : String
  pub meta : T → ObjectMeta
  pub set_meta : T → ObjectMeta → T

-- `is_being_deleted`.
unfoldable pub is_being_deleted : {T : Type 0} → KubeResource T → T → Bool
is_being_deleted k r = is_some (k.meta r).deletion_timestamp

-- Where a call goes.
pub data Target : Type 0 where
  all : Target
  namespaced : String → Target

-- `DeleteParams`: background propagation or the default, and the uid of the precondition.
pub record DeleteParams : Type 0 where
  pub background : Bool
  pub uid_precondition : Option String

-- The calls of `Api<T>`. A list takes its label selector, an apply its field manager.
pub record ApiServer (W T : Type 0) : Type 0 where
  pub list : Target → Option String → Task W KubeError (List T)
  pub get : Target → String → Task W KubeError T
  pub delete : Target → String → DeleteParams → Task W KubeError (Unit {0})
  pub apply : Target → String → T → String → Task W KubeError T
