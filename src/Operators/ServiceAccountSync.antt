-- ===== src/Operators/ServiceAccountSync.antt =====
-- examples/multicontroller/src: the custom resource `ServiceAccountSync` and its reconciler.
pub mod Leaks
pub mod Placement
use koprs.Prelude.{
  ℕ, String, Bool, true, false, Option, none, some, List, [], ◌∷◌, str_eq, if◌then◌else◌, map,
  Result, ok, err, ok_or,
}
use koprs.Prelude.Tasks.{Task, ◌>>=◌, ◌>>◌, done}
use koprs.Error.{KubeGenericError, missing_metadata, metric_label}
use koprs.Kube.{ObjectMeta, KubeResource, is_being_deleted, name_any}
use koprs.Scope.{in_namespace}
use koprs.Finalizers.{add_finalizer_namespaced, remove_finalizer}
use koprs.Gc.{gc_resources}
use koprs.Meta as Meta
use koprs.Resources.{EnsureOutcome, created, updated, unchanged, delete_resource, ensure_resource}
use koprs.Resources.Metadata.{patch_labels}
use koprs.Status.{KoprsCondition, make_condition, upsert_condition}
use koprs.Status.Patches.{patch_status_namespaced}
use koprs.Events.{normal, record_event}
use koprs.Controller.Reconcile.{Action, requeue, await_change, Reconciler}
use koprs.Leader.Config.{from_secs}
use koprs.Operators.{Client, SyncStatus, conditions_of, format}

pub record ServiceAccountSyncSpec : Type 0 where
  pub target_namespace : String
  pub automount_token : Bool
  pub image_pull_secrets : List String

pub record ServiceAccountSync : Type 0 where
  pub metadata : ObjectMeta
  pub spec : ServiceAccountSyncSpec
  pub status : Option SyncStatus

abbrev pub sync_kind : KubeResource ServiceAccountSync
sync_kind = record {
  api_version = "example.io/v1alpha1";
  kind = "ServiceAccountSync";
  meta = λ r. r.metadata;
  set_meta = λ r m. record r { metadata = m };
}

pub record LocalObjectReference : Type 0 where
  pub name : String

-- What the source reads and writes of `ServiceAccount`.
pub record ServiceAccount : Type 0 where
  pub metadata : ObjectMeta
  pub automount_service_account_token : Option Bool
  pub image_pull_secrets : Option (List LocalObjectReference)

abbrev pub service_account_kind : KubeResource ServiceAccount
service_account_kind = record {
  api_version = "v1";
  kind = "ServiceAccount";
  meta = λ r. r.metadata;
  set_meta = λ r m. record r { metadata = m };
}

abbrev pub finalizer : String
finalizer = "multicontroller.example.io/serviceaccountsync-cleanup"

abbrev pub field_manager : String
field_manager = "multicontroller-serviceaccountsync"

abbrev pub managed_label : String
managed_label = "app.kubernetes.io/managed-by=multicontroller-serviceaccountsync"

unfoldable pub service_account_name : String → String → String
service_account_name cr_namespace cr_name = format ("sas-" ∷ cr_namespace ∷ "-" ∷ cr_name ∷ [])

unfoldable pub owner_selector : String → String → String
owner_selector cr_namespace cr_name = format (
    managed_label ∷ ",multicontroller.example.io/owner=" ∷ cr_name
    ∷ ",multicontroller.example.io/owner-namespace=" ∷ cr_namespace ∷ [])

unfoldable pub build_service_account :
    String → String → String → String → Bool → List String → ServiceAccount
unfolding Meta.new Meta.name Meta.namespace Meta.label Meta.build
build_service_account name namespace owner_ns owner_cr automount_token image_pull_secrets =
    let named = Meta.namespace (Meta.name Meta.new name) namespace in
    let managed =
      Meta.label named "app.kubernetes.io/managed-by" "multicontroller-serviceaccountsync" in
    let owned = Meta.label managed "multicontroller.example.io/owner" owner_cr in
    record {
      metadata =
          Meta.build (Meta.label owned "multicontroller.example.io/owner-namespace" owner_ns);
      automount_service_account_token = some automount_token;
      image_pull_secrets =
          Meta.some_unless_empty (map (λ n. record { name = n }) image_pull_secrets);
    }

module _ {W : Type 0} (client : Client W ServiceAccountSync ServiceAccount SyncStatus) where
  -- The event for what `ensure_resource` did.
  abbrev pub report :
      ServiceAccountSync
      → String
      → String
      → EnsureOutcome ServiceAccount
      → Task W KubeGenericError (Unit {0})
  report cr cm target (created r) =
      record_event sync_kind client.process client.create_event cr normal "Sync"
        "ServiceAccountCreated"
        (format ("ServiceAccount '" ∷ cm ∷ "' created in namespace '" ∷ target ∷ "'" ∷ []))
        field_manager
  report cr cm target (updated r) =
      record_event sync_kind client.process client.create_event cr normal "Sync"
        "ServiceAccountDriftCorrected"
        (format ("ServiceAccount '" ∷ cm ∷ "' corrected in namespace '" ∷ target ∷ "'" ∷ []))
        field_manager
  report cr cm target (unchanged r) = done (ok tt)

  -- The last step: the status, with its condition stamped by the clock.
  abbrev pub write_status :
      ServiceAccountSync → String → String → String → Task W KubeGenericError ServiceAccountSync
  write_status cr namespace name message w =
      patch_status_namespaced sync_kind client.patch_status namespace name
        (record {
          ready = true;
          message = message;
          conditions = upsert_condition (conditions_of cr.status) (
              make_condition "Ready" "True" "ServiceAccountSynced" message cr.metadata.generation
                (client.time_text w));
        })
        field_manager w

  -- The deletion path.
  unfoldable pub cleanup : ServiceAccountSync → String → String → Task W KubeGenericError Action
  unfolding delete_resource remove_finalizer service_account_name
  cleanup cr namespace name = do
    gone ←
        delete_resource service_account_kind client.children (in_namespace cr.spec.target_namespace)
          (service_account_name namespace name)
    rest ← remove_finalizer sync_kind client.patch_finalizers (in_namespace namespace) cr finalizer
    done (ok await_change)

  -- What follows the finalizer in the normal path.
  unfoldable pub sync : ServiceAccountSync → String → String → Task W KubeGenericError Action
  unfolding ensure_resource gc_resources patch_labels patch_status_namespaced record_event
      service_account_name build_service_account owner_selector make_condition upsert_condition
  sync cr namespace name =
      let target = cr.spec.target_namespace in
      let cm = service_account_name namespace name in
      do
        outcome ←
            ensure_resource service_account_kind client.children (in_namespace target)
              (build_service_account cm target namespace name cr.spec.automount_token
                cr.spec.image_pull_secrets)
              field_manager
        report cr cm target outcome
        gc_resources service_account_kind client.children (in_namespace target)
            (owner_selector namespace name) (λ r. str_eq (name_any r.metadata) cm)
        labelled ←
            patch_labels client.patch_metadata (in_namespace namespace) name
              (("multicontroller.example.io/synced-to", target) ∷ [])
        written ←
            write_status cr namespace name
              (format ("ServiceAccount '" ∷ cm ∷ "' synced to namespace '" ∷ target ∷ "'" ∷ []))
        done (ok (requeue (from_secs 300)))

  -- The normal path.
  unfoldable pub manage : ServiceAccountSync → String → String → Task W KubeGenericError Action
  unfolding add_finalizer_namespaced sync
  manage cr namespace name = do
    added ← add_finalizer_namespaced sync_kind client.patch_finalizers cr finalizer
    sync cr namespace name

  unfoldable pub reconcile : ServiceAccountSync → Task W KubeGenericError Action
  unfolding is_being_deleted cleanup manage
  reconcile cr = do
    namespace ← done (ok_or cr.metadata.namespace (missing_metadata "namespace"))
    (if is_being_deleted sync_kind cr
        then cleanup cr namespace (name_any cr.metadata)
        else manage cr namespace (name_any cr.metadata))

  unfoldable pub reconciler : Reconciler W ServiceAccountSync KubeGenericError
  unfolding reconcile metric_label
  reconciler = record {
    reconcile = reconcile;
    error_policy = λ cr e. requeue (from_secs 5);
    error_label = metric_label;
  }
