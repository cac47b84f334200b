-- ===== src/Operators/ConfigMapSync/Placement.antt =====
-- examples/configmapsync/src/reconciler.rs: the ConfigMap after a reconcile.
use koprs.Prelude.{◌≡◌, refl, String, List, false, some, [], ◌∷◌, str_eq, ok}
use koprs.Prelude.Maps.{insert}
use koprs.Kube.{default_meta, is_being_deleted, name_any}
use koprs.Scope.{in_namespace}
use koprs.Finalizers.{add_finalizer_namespaced}
use koprs.Leader.Config.{from_secs}
use koprs.Controller.Reconcile.{requeue}
use koprs.Resources.{EnsureOutcome, created, updated, unchanged}
use koprs.Operators.{Client, SyncStatus, format}
use koprs.Operators.Leads.{Leads, Keeps, done-Keeps}
use koprs.Operators.Leaks.{namespace_of, named-Leads}
use koprs.Operators.Placed.{
  Any, Places, steps_place, status_patch-Keeps, record_event-Keeps, live-Leads, spared,
}
use koprs.Operators.ConfigMapSync.{
  ConfigMapSync, ConfigMap, sync_kind, config_map_kind, finalizer, configmap_name, report,
  write_status, build_configmap, owner_selector, field_manager, cleanup, sync, manage, reconcile,
}

build-name :
    (name namespace owner_ns owner_cr : String) (entries : List (String × String))
    → (build_configmap name namespace owner_ns owner_cr entries).metadata.name ≡ some name
unfolding build_configmap
build-name name namespace owner_ns owner_cr entries = refl

abbrev pub child_name : ConfigMapSync → String
child_name cr =
    format ("cms-" ∷ namespace_of cr.metadata.namespace ∷ "-" ∷ name_any cr.metadata ∷ [])

-- The ConfigMap that a ConfigMapSync describes: its name and its labels tell the resource apart from
-- every other one, and its data are those of the resource.
abbrev pub described : ConfigMapSync → ConfigMap
described cr = record {
  metadata = record default_meta {
    name = some (child_name cr);
    namespace = some cr.spec.target_namespace;
    labels = some (
        ("app.kubernetes.io/managed-by", "configmapsync-operator")
        ∷ ("configmapsync.example.io/owner", name_any cr.metadata)
        ∷ ("configmapsync.example.io/owner-namespace", namespace_of cr.metadata.namespace)
        ∷ []);
  };
  data_ = some cr.spec.data_;
}

module _ {W : Type 0} (client : Client W ConfigMapSync ConfigMap SyncStatus) (cr : ConfigMapSync)
    {Placed : W → Type 0}
    (law : Places client cr.spec.target_namespace
      (child_name cr)
      (described cr)
      field_manager
      Placed) where
  report-Keeps :
      (cm target : String) (o : EnsureOutcome ConfigMap)
      → Keeps Placed (report client cr cm target o)
  report-Keeps cm target (created r) =
      record_event-Keeps client law config_map_kind sync_kind cr _ _ _ _ _
  report-Keeps cm target (updated r) =
      record_event-Keeps client law config_map_kind sync_kind cr _ _ _ _ _
  report-Keeps cm target (unchanged r) = done-Keeps (ok tt)

  write-Keeps : (ns name message : String) → Keeps Placed (write_status client cr ns name message)
  write-Keeps ns name message = record {
    across = λ w. (status_patch-Keeps client law config_map_kind sync_kind ns name _ _).across w;
  }

  pub reconcile-Places :
      is_being_deleted sync_kind cr ≡ false → Leads Any Placed Any (reconcile client cr)
  unfolding reconcile manage sync build_configmap configmap_name insert
  reconcile-Places live =
      let target = cr.spec.target_namespace in
      let ns = namespace_of cr.metadata.namespace in
      let name = name_any cr.metadata in
      let cm = child_name cr in
      named-Leads _ cr.metadata.namespace _ (λ w p. tt)
        (live-Leads (is_being_deleted sync_kind cr) (cleanup client cr ns name)
          (add_finalizer_namespaced sync_kind client.patch_finalizers cr finalizer) live
          (steps_place client law config_map_kind (in_namespace ns) (owner_selector ns name) name
            (λ r. str_eq (name_any r.metadata) cm)
            (("configmapsync.example.io/synced-to", target) ∷ []) (ok (requeue (from_secs 300)))
            (build-name cm target ns name cr.spec.data_) (λ r e. spared _ _ e)
            (report-Keeps cm target)
            (write-Keeps ns name
              (format ("ConfigMap '" ∷ cm ∷ "' synced to namespace '" ∷ target ∷ "'" ∷ [])))))
