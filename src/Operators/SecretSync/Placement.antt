-- ===== src/Operators/SecretSync/Placement.antt =====
-- examples/multicontroller/src/secretsync.rs: the Secret after a reconcile.
use koprs.Prelude.{◌≡◌, refl, String, List, false, none, some, [], ◌∷◌, str_eq, ok}
use koprs.Prelude.Maps.{insert}
use koprs.Kube.{default_meta, is_being_deleted, name_any}
use koprs.Scope.{in_namespace}
use koprs.Finalizers.{add_finalizer_namespaced}
use koprs.Leader.Config.{from_secs}
use koprs.Controller.Reconcile.{requeue}
use koprs.Resources.{EnsureOutcome, created, updated, unchanged}
use koprs.Operators.{Client, SyncStatus, format}
use koprs.Operators.Leads.{Leads, Keeps, done-Keeps}
use koprs.Operators.Leaks.{namespace_of, named-Leads}
use koprs.Operators.Placed.{
  Any, Places, steps_place, status_patch-Keeps, record_event-Keeps, live-Leads, spared,
}
use koprs.Operators.SecretSync.{
  SecretSync, Secret, sync_kind, secret_kind, finalizer, secret_name, report, write_status,
  build_secret, owner_selector, field_manager, cleanup, sync, manage, reconcile,
}

build-name :
    (name namespace owner_ns owner_cr : String) (entries : List (String × String))
    → (build_secret name namespace owner_ns owner_cr entries).metadata.name ≡ some name
unfolding build_secret
build-name name namespace owner_ns owner_cr entries = refl

abbrev pub child_name : SecretSync → String
child_name cr =
    format ("ss-" ∷ namespace_of cr.metadata.namespace ∷ "-" ∷ name_any cr.metadata ∷ [])

-- The Secret that a SecretSync describes.
abbrev pub described : SecretSync → Secret
described cr = record {
  metadata = record default_meta {
    name = some (child_name cr);
    namespace = some cr.spec.target_namespace;
    labels = some (
        ("app.kubernetes.io/managed-by", "multicontroller-secretsync")
        ∷ ("multicontroller.example.io/owner", name_any cr.metadata)
        ∷ ("multicontroller.example.io/owner-namespace", namespace_of cr.metadata.namespace)
        ∷ []);
  };
  data_ = none;
  type_ = some "Opaque";
  string_data = some cr.spec.string_data;
}

module _ {W : Type 0} (client : Client W SecretSync Secret SyncStatus) (cr : SecretSync)
    {Placed : W → Type 0}
    (law : Places client cr.spec.target_namespace
      (child_name cr)
      (described cr)
      field_manager
      Placed) where
  report-Keeps :
      (cm target : String) (o : EnsureOutcome Secret) → Keeps Placed (report client cr cm target o)
  report-Keeps cm target (created r) =
      record_event-Keeps client law secret_kind sync_kind cr _ _ _ _ _
  report-Keeps cm target (updated r) =
      record_event-Keeps client law secret_kind sync_kind cr _ _ _ _ _
  report-Keeps cm target (unchanged r) = done-Keeps (ok tt)

  write-Keeps : (ns name message : String) → Keeps Placed (write_status client cr ns name message)
  write-Keeps ns name message = record {
    across = λ w. (status_patch-Keeps client law secret_kind sync_kind ns name _ _).across w;
  }

  -- A reconcile of a SecretSync that is not being deleted, if it succeeds, leaves the Secret
  -- that the resource describes, with its name, labels and data, in the target namespace: neither
  -- the collection of stale children nor a later step takes it away. This assumes what the API
  -- server documents of its calls, and that nobody else changes this Secret meanwhile.
  pub reconcile-Places :
      is_being_deleted sync_kind cr ≡ false → Leads Any Placed Any (reconcile client cr)
  unfolding reconcile manage sync build_secret secret_name insert
  reconcile-Places live =
      let target = cr.spec.target_namespace in
      let ns = namespace_of cr.metadata.namespace in
      let name = name_any cr.metadata in
      let cm = child_name cr in
      named-Leads _ cr.metadata.namespace _ (λ w p. tt)
        (live-Leads (is_being_deleted sync_kind cr) (cleanup client cr ns name)
          (add_finalizer_namespaced sync_kind client.patch_finalizers cr finalizer) live
          (steps_place client law secret_kind (in_namespace ns) (owner_selector ns name) name
            (λ r. str_eq (name_any r.metadata) cm)
            (("multicontroller.example.io/synced-to", target) ∷ []) (ok (requeue (from_secs 300)))
            (build-name cm target ns name cr.spec.string_data) (λ r e. spared _ _ e)
            (report-Keeps cm target)
            (write-Keeps ns name
              (format ("Secret '" ∷ cm ∷ "' synced to namespace '" ∷ target ∷ "'" ∷ [])))))
