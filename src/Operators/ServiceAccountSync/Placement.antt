-- ===== src/Operators/ServiceAccountSync/Placement.antt =====
-- examples/multicontroller/src/serviceaccountsync.rs: the ServiceAccount after a reconcile.
use koprs.Prelude.{◌≡◌, refl, String, Bool, List, map, false, some, [], ◌∷◌, str_eq, ok}
use koprs.Prelude.Maps.{insert}
use koprs.Meta.{some_unless_empty}
use koprs.Kube.{default_meta, is_being_deleted, name_any}
use koprs.Scope.{in_namespace}
use koprs.Finalizers.{add_finalizer_namespaced}
use koprs.Leader.Config.{from_secs}
use koprs.Controller.Reconcile.{requeue}
use koprs.Resources.{EnsureOutcome, created, updated, unchanged}
use koprs.Operators.{Client, SyncStatus, format}
use koprs.Operators.Leads.{Leads, Keeps, done-Keeps}
use koprs.Operators.Leaks.{namespace_of, named-Leads}
use koprs.Operators.Placed.{
  Any, Places, steps_place, status_patch-Keeps, record_event-Keeps, live-Leads, spared,
}
use koprs.Operators.ServiceAccountSync.{
  ServiceAccountSync, ServiceAccount, sync_kind, service_account_kind, finalizer,
  service_account_name, report, write_status, build_service_account, owner_selector, field_manager,
  cleanup, sync, manage, reconcile,
}

build-name :
    (name namespace owner_ns owner_cr : String) (token : Bool) (secrets : List String)
    → (build_service_account name namespace owner_ns owner_cr token secrets).metadata.name
      ≡ some name
unfolding build_service_account
build-name name namespace owner_ns owner_cr token secrets = refl

abbrev pub child_name : ServiceAccountSync → String
child_name cr =
    format ("sas-" ∷ namespace_of cr.metadata.namespace ∷ "-" ∷ name_any cr.metadata ∷ [])

-- The ServiceAccount that a ServiceAccountSync describes.
abbrev pub described : ServiceAccountSync → ServiceAccount
described cr = record {
  metadata = record default_meta {
    name = some (child_name cr);
    namespace = some cr.spec.target_namespace;
    labels = some (
        ("app.kubernetes.io/managed-by", "multicontroller-serviceaccountsync")
        ∷ ("multicontroller.example.io/owner", name_any cr.metadata)
        ∷ ("multicontroller.example.io/owner-namespace", namespace_of cr.metadata.namespace)
        ∷ []);
  };
  automount_service_account_token = some cr.spec.automount_token;
  image_pull_secrets =
      some_unless_empty (map (λ n. record { name = n }) cr.spec.image_pull_secrets);
}

module _ {W : Type 0} (client : Client W ServiceAccountSync ServiceAccount SyncStatus)
    (cr : ServiceAccountSync) {Placed : W → Type 0}
    (law : Places client cr.spec.target_namespace
      (child_name cr)
      (described cr)
      field_manager
      Placed) where
  report-Keeps :
      (cm target : String) (o : EnsureOutcome ServiceAccount)
      → Keeps Placed (report client cr cm target o)
  report-Keeps cm target (created r) =
      record_event-Keeps client law service_account_kind sync_kind cr _ _ _ _ _
  report-Keeps cm target (updated r) =
      record_event-Keeps client law service_account_kind sync_kind cr _ _ _ _ _
  report-Keeps cm target (unchanged r) = done-Keeps (ok tt)

  write-Keeps : (ns name message : String) → Keeps Placed (write_status client cr ns name message)
  write-Keeps ns name message = record {
    across =
        λ w. (status_patch-Keeps client law service_account_kind sync_kind ns name _ _).across w;
  }

  -- A reconcile of a ServiceAccountSync that is not being deleted, if it succeeds, leaves the ServiceAccount
  -- that the resource describes, with its name, labels and data, in the target namespace: neither
  -- the collection of stale children nor a later step takes it away. This assumes what the API
  -- server documents of its calls, and that nobody else changes this ServiceAccount meanwhile.
  pub reconcile-Places :
      is_being_deleted sync_kind cr ≡ false → Leads Any Placed Any (reconcile client cr)
  unfolding reconcile manage sync build_service_account service_account_name insert
  reconcile-Places live =
      let target = cr.spec.target_namespace in
      let ns = namespace_of cr.metadata.namespace in
      let name = name_any cr.metadata in
      let cm = child_name cr in
      named-Leads _ cr.metadata.namespace _ (λ w p. tt)
        (live-Leads (is_being_deleted sync_kind cr) (cleanup client cr ns name)
          (add_finalizer_namespaced sync_kind client.patch_finalizers cr finalizer) live
          (steps_place client law service_account_kind (in_namespace ns) (owner_selector ns name)
            name (λ r. str_eq (name_any r.metadata) cm)
            (("multicontroller.example.io/synced-to", target) ∷ []) (ok (requeue (from_secs 300)))
            (build-name cm target ns name cr.spec.automount_token cr.spec.image_pull_secrets)
            (λ r e. spared _ _ e) (report-Keeps cm target)
            (write-Keeps ns name
              (format ("ServiceAccount '" ∷ cm ∷ "' synced to namespace '" ∷ target ∷ "'" ∷ [])))))
