-- ===== src/Operators/Examples.antt =====
-- examples/configmapsync/src: a ConfigMapSync that is reconciled, and one that is deleted.
use koprs.Prelude.{◌≡◌, refl, String, true, false, none, some, [], ◌∷◌, ok}
use koprs.Kube.{default_meta, is_being_deleted, name_any}
use koprs.Gc.{is_blank}
use koprs.Finalizers.{add_finalizer_patch, position, remove_finalizer_patch}
use koprs.Controller.Reconcile.{requeue, await_change}
use koprs.Operators.{Client, SyncStatus}
use koprs.Operators.Leads.{Leads}
use koprs.Operators.Laws.{Safe, Before}
use koprs.Operators.Leaks.{namespace_of, Settled}
use koprs.Operators.Model.{Server, client_of, Held, Gone, holds_of, goes_of}
use koprs.Operators.ConfigMapSync.{
  ConfigMapSync, ConfigMap, sync_kind, finalizer, configmap_name, reconcile,
}
use koprs.Operators.ConfigMapSync.Leaks.{reconcile-Settled}

-- It is being deleted, and carries the finalizer.
abbrev deleted : ConfigMapSync
deleted = record {
  metadata = record default_meta {
    name = some "web";
    namespace = some "team";
    deletion_timestamp = some 1;
    finalizers = some ("configmapsync.example.io/cleanup" ∷ []);
  };
  spec = record { target_namespace = "apps"; data_ = ("color", "blue") ∷ [] };
  status = none;
}

abbrev client : Client Server ConfigMapSync ConfigMap SyncStatus
client = client_of deleted

abbrev cleaned : String
cleaned = configmap_name (namespace_of deleted.metadata.namespace) (name_any deleted.metadata)

reconcile-Settled_example :
    Leads
      (Before client finalizer Held Gone sync_kind deleted)
      (Settled (is_being_deleted sync_kind deleted) Held Gone)
      (Safe Held Gone)
      (reconcile client deleted)
reconcile-Settled_example =
    reconcile-Settled client (holds_of deleted finalizer) deleted (goes_of deleted "apps" cleaned)

-- The first reconcile of a live one, and the one after its deletion.
live_run :
    reconcile client
      (record deleted {
        metadata = record default_meta { name = some "web"; namespace = some "team" };
      })
      (record { held = false; child = false })
    ≡ (ok (requeue 300000000000), record { held = true; child = true })
unfolding reconcile is_blank add_finalizer_patch
live_run = refl

deleted_run :
    reconcile client deleted (record { held = true; child = true })
    ≡ (ok await_change, record { held = false; child = false })
unfolding reconcile position remove_finalizer_patch
deleted_run = refl

-- It is live.
abbrev live : ConfigMapSync
live = record deleted {
  metadata = record default_meta { name = some "web"; namespace = some "team" };
}
