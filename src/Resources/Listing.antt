-- ===== src/Resources/Listing.antt =====
-- crates/koprs/src/resources.rs: the listings and `ensure_namespace`. Of the list parameters only the
-- label selector is kept; the set of names is a list.
use koprs.Prelude.{String, Option, some, List, map, ok, map_err}
use koprs.Prelude.Tasks.{Task, ◌>>=◌, done}
use koprs.Error.{KubeGenericError, kube}
use koprs.Kube.{ObjectMeta, default_meta, KubeResource, ApiServer, Target, all, name_any}
use koprs.Scope.{Scope, into_api}

module _ {W T : Type 0} (k : KubeResource T) (server : ApiServer W T) where
  unfoldable pub list_inner : Target → Option String → Task W KubeGenericError (List T)
  list_inner target selector w =
      (map_err kube (server.list target selector w).0, (server.list target selector w).1)

  unfoldable pub list_resources_scoped : Scope → Option String → Task W KubeGenericError (List T)
  unfolding list_inner
  list_resources_scoped scope selector = list_inner (into_api scope) selector

  unfoldable pub list_resource_names : String → Task W KubeGenericError (List String)
  unfolding list_inner
  list_resource_names label_selector = do
    items ← list_inner all (some label_selector)
    done (ok (map (λ r. name_any (k.meta r)) items))

-- A namespace with its name and nothing else, applied.
unfoldable pub ensure_namespace :
    {W : Type 0} → ApiServer W ObjectMeta → String → String → Task W KubeGenericError ObjectMeta
ensure_namespace server name field_manager w =
    let answer = server.apply all name (record default_meta { name = some name }) field_manager w in
    (map_err kube answer.0, answer.1)
