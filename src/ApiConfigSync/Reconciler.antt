-- ===== src/ApiConfigSync/Reconciler.antt =====
-- examples/apiconfigsync/src/reconciler.rs: the reconciler of `ApiConfigSync`.
pub mod Leaks
pub mod Fetched
pub mod Placement
pub mod Refusals
pub mod Examples
use koprs.Prelude.{
  String, Bool, true, false, Option, none, some, List, [], ◌∷◌, str_eq, if◌then◌else◌, Result, ok,
  err, ok_or, map_err,
}
use koprs.Prelude.Maps.{insert}
use koprs.Prelude.Tasks.{Task, ◌>>=◌, ◌>>◌, done}
use koprs.Error.{KubeGenericError, missing_metadata, config, metric_label}
use koprs.Kube.{is_being_deleted, name_any}
use koprs.Scope.{in_namespace}
use koprs.Finalizers.{add_finalizer_namespaced, remove_finalizer}
use koprs.Gc.{gc_resources}
use koprs.Meta as Meta
use koprs.Resources.{EnsureOutcome, created, updated, unchanged, delete_resource, ensure_resource}
use koprs.Resources.Metadata.{patch_labels}
use koprs.Status.{make_condition, upsert_condition}
use koprs.Status.Patches.{patch_status_namespaced}
use koprs.Events.{normal, record_event}
use koprs.Controller.Reconcile.{Action, requeue, await_change, Reconciler}
use koprs.Leader.Config.{from_secs}
use koprs.Operators.{Client, SyncStatus, conditions_of, format}
use koprs.Operators.ConfigMapSync.{ConfigMap, config_map_kind}
use koprs.ApiConfigSync.Policy.{UrlPolicy, check}
use koprs.ApiConfigSync.Types.{ApiConfigSync, sync_kind}
use koprs.ApiConfigSync.Fetch.{Outside, build_poller, optional_token, read_token, fetch}
use koprs.External.Http.{poll}

abbrev pub finalizer : String
finalizer = "apiconfigsync.example.io/cleanup"

abbrev pub field_manager : String
field_manager = "apiconfigsync-operator"

abbrev pub managed_label : String
managed_label = "app.kubernetes.io/managed-by=apiconfigsync-operator"

unfoldable pub configmap_name : String → String → String
configmap_name cr_namespace cr_name = format ("acs-" ∷ cr_namespace ∷ "-" ∷ cr_name ∷ [])

unfoldable pub owner_selector : String → String → String
owner_selector cr_namespace cr_name = format (
    managed_label ∷ ",apiconfigsync.example.io/owner=" ∷ cr_name
    ∷ ",apiconfigsync.example.io/owner-namespace=" ∷ cr_namespace ∷ [])

unfoldable pub build_configmap : String → String → String → String → String → String → ConfigMap
unfolding Meta.new Meta.name Meta.namespace Meta.label Meta.build
build_configmap name namespace owner_ns owner_cr config_key config_body =
    let named = Meta.namespace (Meta.name Meta.new name) namespace in
    let managed = Meta.label named "app.kubernetes.io/managed-by" "apiconfigsync-operator" in
    let owned = Meta.label managed "apiconfigsync.example.io/owner" owner_cr in
    record {
      metadata = Meta.build (Meta.label owned "apiconfigsync.example.io/owner-namespace" owner_ns);
      data_ = some (insert config_key config_body []);
    }

module _ {W : Type 0} (client : Client W ApiConfigSync ConfigMap SyncStatus) (outside : Outside W)
    (policy : UrlPolicy) where
  -- The event for what `ensure_resource` did.
  abbrev pub report :
      ApiConfigSync → String → String → EnsureOutcome ConfigMap → Task W KubeGenericError (Unit {0})
  report cr cm target (created r) =
      record_event sync_kind client.process client.create_event cr normal "Sync" "ConfigMapCreated"
        (format ("ConfigMap '" ∷ cm ∷ "' created in namespace '" ∷ target ∷ "'" ∷ [])) field_manager
  report cr cm target (updated r) =
      record_event sync_kind client.process client.create_event cr normal "Sync" "ConfigMapUpdated"
        (format ("ConfigMap '" ∷ cm ∷ "' updated in namespace '" ∷ target ∷ "'" ∷ [])) field_manager
  report cr cm target (unchanged r) = done (ok tt)

  abbrev pub message_of : ApiConfigSync → String → String
  message_of cr cm = format (
      "ConfigMap '" ∷ cm ∷ "' synced from '" ∷ cr.spec.api_url ∷ "' to namespace '"
      ∷ cr.spec.target_namespace ∷ "'" ∷ [])

  -- The last step: the status, with its condition stamped by the clock.
  abbrev pub write_status :
      ApiConfigSync → String → String → String → Task W KubeGenericError ApiConfigSync
  write_status cr namespace name message w =
      patch_status_namespaced sync_kind client.patch_status namespace name
        (record {
          ready = true;
          message = message;
          conditions = upsert_condition (conditions_of cr.status) (
              make_condition "Ready" "True" "ApiConfigSynced" message cr.metadata.generation
                (client.time_text w));
        })
        field_manager w

  -- The deletion path.
  unfoldable pub cleanup : ApiConfigSync → String → String → Task W KubeGenericError Action
  unfolding delete_resource remove_finalizer configmap_name
  cleanup cr namespace name = do
    gone ←
        delete_resource config_map_kind client.children (in_namespace cr.spec.target_namespace)
          (configmap_name namespace name)
    rest ← remove_finalizer sync_kind client.patch_finalizers (in_namespace namespace) cr finalizer
    done (ok await_change)

  -- The policy, again.
  abbrev pub enforce : ApiConfigSync → Task W KubeGenericError (Unit {0})
  enforce cr = elim (check outside.parse_url outside.show_ip policy cr.spec.api_url) [
    | err reason ↦ done (err (config reason))
    | ok url ↦ done (ok tt)
  ]

  -- What follows the body that was fetched.
  unfoldable pub apply_body :
      ApiConfigSync → String → String → String → Task W KubeGenericError Action
  unfolding ensure_resource gc_resources patch_labels patch_status_namespaced record_event
      configmap_name build_configmap owner_selector make_condition upsert_condition
  apply_body cr namespace name config_body =
      let target = cr.spec.target_namespace in
      let cm = configmap_name namespace name in
      do
        outcome ←
            ensure_resource config_map_kind client.children (in_namespace target)
              (build_configmap cm target namespace name cr.spec.config_key config_body)
              field_manager
        report cr cm target outcome
        gc_resources config_map_kind client.children (in_namespace target)
            (owner_selector namespace name) (λ r. str_eq (name_any r.metadata) cm)
        labelled ←
            patch_labels client.patch_metadata (in_namespace namespace) name
              (("apiconfigsync.example.io/synced-to", target) ∷ [])
        written ← write_status cr namespace name (message_of cr cm)
        done (ok (requeue (from_secs 300)))

  -- What follows the finalizer in the normal path.
  unfoldable pub sync : ApiConfigSync → String → String → Task W KubeGenericError Action
  unfolding check read_token build_poller poll apply_body
  sync cr namespace name = do
    enforce cr
    token ← optional_token outside namespace cr.spec.bearer_token_secret_ref
    config_body ← fetch outside (build_poller cr.spec.api_url token namespace name)
    apply_body cr namespace name config_body

  -- The normal path.
  unfoldable pub manage : ApiConfigSync → String → String → Task W KubeGenericError Action
  unfolding add_finalizer_namespaced sync
  manage cr namespace name = do
    added ← add_finalizer_namespaced sync_kind client.patch_finalizers cr finalizer
    sync cr namespace name

  unfoldable pub reconcile : ApiConfigSync → Task W KubeGenericError Action
  unfolding is_being_deleted cleanup manage
  reconcile cr = do
    namespace ← done (ok_or cr.metadata.namespace (missing_metadata "namespace"))
    (if is_being_deleted sync_kind cr
        then cleanup cr namespace (name_any cr.metadata)
        else manage cr namespace (name_any cr.metadata))

  unfoldable pub reconciler : Reconciler W ApiConfigSync KubeGenericError
  unfolding reconcile metric_label
  reconciler = record {
    reconcile = reconcile;
    error_policy = λ cr e. requeue (from_secs 5);
    error_label = metric_label;
  }
