-- ===== src/Scope.antt =====
-- crates/koprs/src/scope.rs: where the calls for a scope go. That only `Cluster` and `Namespaced`
-- serve calls on one object (`ApiScope`) is a matter of Rust's types and not modelled.
use koprs.Prelude.{String, Option, none, some}
use koprs.Kube.{Target, all, namespaced}

pub data Scope : Type 0 where
  cluster : Scope
  in_namespace : String → Scope
  all_namespaces : Scope

unfoldable pub namespace : Scope → Option String
namespace cluster = none
namespace (in_namespace ns) = some ns
namespace all_namespaces = none

unfoldable pub into_api : Scope → Target
into_api cluster = all
into_api (in_namespace ns) = namespaced ns
into_api all_namespaces = all

unfoldable pub object_api : Scope → Option String → Target
object_api cluster object_namespace = all
object_api (in_namespace ns) object_namespace = namespaced ns
object_api all_namespaces (some ns) = namespaced ns
object_api all_namespaces none = all
