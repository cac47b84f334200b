-- ===== src/Operators/SecretSync.antt =====
-- examples/multicontroller/src: the custom resource `SecretSync` and its reconciler.
pub mod Leaks
pub mod Placement
use koprs.Prelude.{
  ℕ, String, Bool, true, false, Option, none, some, List, [], ◌∷◌, str_eq, if◌then◌else◌, Result,
  ok, err, ok_or,
}
use koprs.Prelude.Tasks.{Task, ◌>>=◌, ◌>>◌, done}
use koprs.Error.{KubeGenericError, missing_metadata, metric_label}
use koprs.Kube.{ObjectMeta, KubeResource, is_being_deleted, name_any}
use koprs.Scope.{in_namespace}
use koprs.Finalizers.{add_finalizer_namespaced, remove_finalizer}
use koprs.Gc.{gc_resources}
use koprs.Meta as Meta
use koprs.Resources.{EnsureOutcome, created, updated, unchanged, delete_resource, ensure_resource}
use koprs.Resources.Metadata.{patch_labels}
use koprs.Status.{KoprsCondition, make_condition, upsert_condition}
use koprs.Status.Patches.{patch_status_namespaced}
use koprs.Events.{normal, record_event}
use koprs.Controller.Reconcile.{Action, requeue, await_change, Reconciler}
use koprs.Leader.Config.{from_secs}
use koprs.External.Http.{Bytes}
use koprs.Operators.{Client, SyncStatus, conditions_of, format}

pub record SecretSyncSpec : Type 0 where
  pub target_namespace : String
  pub string_data : List (String × String)

pub record SecretSync : Type 0 where
  pub metadata : ObjectMeta
  pub spec : SecretSyncSpec
  pub status : Option SyncStatus

abbrev pub sync_kind : KubeResource SecretSync
sync_kind = record {
  api_version = "example.io/v1alpha1";
  kind = "SecretSync";
  meta = λ r. r.metadata;
  set_meta = λ r m. record r { metadata = m };
}

-- What the source reads and writes of `Secret`.
pub record Secret : Type 0 where
  pub metadata : ObjectMeta
  pub data_ : Option (List (String × Bytes))
  pub type_ : Option String
  pub string_data : Option (List (String × String))

abbrev pub secret_kind : KubeResource Secret
secret_kind = record {
  api_version = "v1";
  kind = "Secret";
  meta = λ r. r.metadata;
  set_meta = λ r m. record r { metadata = m };
}

abbrev pub finalizer : String
finalizer = "multicontroller.example.io/secretsync-cleanup"

abbrev pub field_manager : String
field_manager = "multicontroller-secretsync"

abbrev pub managed_label : String
managed_label = "app.kubernetes.io/managed-by=multicontroller-secretsync"

unfoldable pub secret_name : String → String → String
secret_name cr_namespace cr_name = format ("ss-" ∷ cr_namespace ∷ "-" ∷ cr_name ∷ [])

unfoldable pub owner_selector : String → String → String
owner_selector cr_namespace cr_name = format (
    managed_label ∷ ",multicontroller.example.io/owner=" ∷ cr_name
    ∷ ",multicontroller.example.io/owner-namespace=" ∷ cr_namespace ∷ [])

unfoldable pub build_secret : String → String → String → String → List (String × String) → Secret
unfolding Meta.new Meta.name Meta.namespace Meta.label Meta.build
build_secret name namespace owner_ns owner_cr string_data =
    let named = Meta.namespace (Meta.name Meta.new name) namespace in
    let managed = Meta.label named "app.kubernetes.io/managed-by" "multicontroller-secretsync" in
    let owned = Meta.label managed "multicontroller.example.io/owner" owner_cr in
    record {
      metadata =
          Meta.build (Meta.label owned "multicontroller.example.io/owner-namespace" owner_ns);
      data_ = none;
      type_ = some "Opaque";
      string_data = some string_data;
    }

module _ {W : Type 0} (client : Client W SecretSync Secret SyncStatus) where
  -- The event for what `ensure_resource` did.
  abbrev pub report :
      SecretSync → String → String → EnsureOutcome Secret → Task W KubeGenericError (Unit {0})
  report cr cm target (created r) =
      record_event sync_kind client.process client.create_event cr normal "Sync" "SecretCreated"
        (format ("Secret '" ∷ cm ∷ "' created in namespace '" ∷ target ∷ "'" ∷ [])) field_manager
  report cr cm target (updated r) =
      record_event sync_kind client.process client.create_event cr normal "Sync"
        "SecretDriftCorrected"
        (format ("Secret '" ∷ cm ∷ "' corrected in namespace '" ∷ target ∷ "'" ∷ [])) field_manager
  report cr cm target (unchanged r) = done (ok tt)

  -- The last step: the status, with its condition stamped by the clock.
  abbrev pub write_status :
      SecretSync → String → String → String → Task W KubeGenericError SecretSync
  write_status cr namespace name message w =
      patch_status_namespaced sync_kind client.patch_status namespace name
        (record {
          ready = true;
          message = message;
          conditions = upsert_condition (conditions_of cr.status) (
              make_condition "Ready" "True" "SecretSynced" message cr.metadata.generation
                (client.time_text w));
        })
        field_manager w

  -- The deletion path.
  unfoldable pub cleanup : SecretSync → String → String → Task W KubeGenericError Action
  unfolding delete_resource remove_finalizer secret_name
  cleanup cr namespace name = do
    gone ←
        delete_resource secret_kind client.children (in_namespace cr.spec.target_namespace)
          (secret_name namespace name)
    rest ← remove_finalizer sync_kind client.patch_finalizers (in_namespace namespace) cr finalizer
    done (ok await_change)

  -- What follows the finalizer in the normal path.
  unfoldable pub sync : SecretSync → String → String → Task W KubeGenericError Action
  unfolding ensure_resource gc_resources patch_labels patch_status_namespaced record_event
      secret_name build_secret owner_selector make_condition upsert_condition
  sync cr namespace name =
      let target = cr.spec.target_namespace in
      let cm = secret_name namespace name in
      do
        outcome ←
            ensure_resource secret_kind client.children (in_namespace target)
              (build_secret cm target namespace name cr.spec.string_data) field_manager
        report cr cm target outcome
        gc_resources secret_kind client.children (in_namespace target)
            (owner_selector namespace name) (λ r. str_eq (name_any r.metadata) cm)
        labelled ←
            patch_labels client.patch_metadata (in_namespace namespace) name
              (("multicontroller.example.io/synced-to", target) ∷ [])
        written ←
            write_status cr namespace name
              (format ("Secret '" ∷ cm ∷ "' synced to namespace '" ∷ target ∷ "'" ∷ []))
        done (ok (requeue (from_secs 300)))

  -- The normal path.
  unfoldable pub manage : SecretSync → String → String → Task W KubeGenericError Action
  unfolding add_finalizer_namespaced sync
  manage cr namespace name = do
    added ← add_finalizer_namespaced sync_kind client.patch_finalizers cr finalizer
    sync cr namespace name

  unfoldable pub reconcile : SecretSync → Task W KubeGenericError Action
  unfolding is_being_deleted cleanup manage
  reconcile cr = do
    namespace ← done (ok_or cr.metadata.namespace (missing_metadata "namespace"))
    (if is_being_deleted sync_kind cr
        then cleanup cr namespace (name_any cr.metadata)
        else manage cr namespace (name_any cr.metadata))

  unfoldable pub reconciler : Reconciler W SecretSync KubeGenericError
  unfolding reconcile metric_label
  reconciler = record {
    reconcile = reconcile;
    error_policy = λ cr e. requeue (from_secs 5);
    error_label = metric_label;
  }
