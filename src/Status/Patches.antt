-- ===== src/Status/Patches.antt =====
-- crates/koprs/src/status.rs: the patches of the status subresource. The call that sends one is a
-- parameter.
use koprs.Prelude.{String, map_err}
use koprs.Prelude.Tasks.{Task}
use koprs.Error.{KubeError, KubeGenericError, kube}
use koprs.Kube.{KubeResource, Target}
use koprs.Scope.{Scope, in_namespace, cluster, into_api}

-- The JSON body of a patch.
pub record StatusPatch (S : Type 0) : Type 0 where
  pub api_version : String
  pub kind : String
  pub status : S

module _ {W T S : Type 0} (k : KubeResource T)
    (send : Target → String → StatusPatch S → String → Task W KubeError T) where
  unfoldable pub apply_status_patch : Target → String → S → String → Task W KubeGenericError T
  apply_status_patch target name status field_manager w =
      let answer =
        send target name (record { api_version = k.api_version; kind = k.kind; status = status })
          field_manager w in
      (map_err kube answer.0, answer.1)

  unfoldable pub patch_status : Scope → String → S → String → Task W KubeGenericError T
  unfolding apply_status_patch
  patch_status scope name status field_manager =
      apply_status_patch (into_api scope) name status field_manager

  unfoldable pub patch_status_namespaced : String → String → S → String → Task W KubeGenericError T
  unfolding patch_status
  patch_status_namespaced namespace name status field_manager =
      patch_status (in_namespace namespace) name status field_manager

  unfoldable pub patch_status_cluster : String → S → String → Task W KubeGenericError T
  unfolding patch_status
  patch_status_cluster name status field_manager = patch_status cluster name status field_manager
