-- ===== src/Operators/SecretSync/Leaks.antt =====
-- examples/multicontroller/src/secretsync.rs: the Secret does not outlive its SecretSync.
use koprs.Prelude.{inl, String, [], ◌∷◌, str_eq, ok}
use koprs.Kube.{is_being_deleted, name_any}
use koprs.Scope.{in_namespace}
use koprs.Leader.Config.{from_secs}
use koprs.Controller.Reconcile.{requeue}
use koprs.Resources.{EnsureOutcome, created, updated, unchanged}
use koprs.Operators.{Client, SyncStatus, format}
use koprs.Operators.Leads.{Leads, Keeps, done-Keeps, Keeps-Leads}
use koprs.Operators.Laws.{Holds, Goes, Safe, Before}
use koprs.Operators.Steps.{status_patch-Keeps, record_event-Keeps}
use koprs.Operators.Leaks.{namespace_of, Settled, steps_keep, paths_lead, named-Leads}
use koprs.Operators.SecretSync.{
  SecretSync, Secret, sync_kind, secret_kind, finalizer, secret_name, report, write_status,
  build_secret, owner_selector, field_manager, cleanup, sync, manage, reconcile,
}

module _ {W : Type 0} (client : Client W SecretSync Secret SyncStatus) {Held : W → Type 0}
    (h : Holds client finalizer Held) where
  report-Keeps :
      (cr : SecretSync) (cm target : String) (o : EnsureOutcome Secret)
      → Keeps Held (report client cr cm target o)
  report-Keeps cr cm target (created r) =
      record_event-Keeps client h sync_kind secret_kind cr _ _ _ _ _
  report-Keeps cr cm target (updated r) =
      record_event-Keeps client h sync_kind secret_kind cr _ _ _ _ _
  report-Keeps cr cm target (unchanged r) = done-Keeps (ok tt)

  write-Keeps :
      (cr : SecretSync) (ns name message : String)
      → Keeps Held (write_status client cr ns name message)
  write-Keeps cr ns name message = record {
    across = λ w. (status_patch-Keeps client h sync_kind secret_kind ns name _ _).across w;
  }

  sync-Keeps : (cr : SecretSync) (ns name : String) → Keeps Held (sync client cr ns name)
  unfolding sync
  sync-Keeps cr ns name =
      let target = cr.spec.target_namespace in
      let cm = secret_name ns name in
      steps_keep client h sync_kind secret_kind (in_namespace target) (in_namespace ns)
        (build_secret cm target ns name cr.spec.string_data) field_manager (owner_selector ns name)
        name (λ r. str_eq (name_any r.metadata) cm)
        (("multicontroller.example.io/synced-to", target) ∷ []) (ok (requeue (from_secs 300)))
        (report-Keeps cr cm target)
        (write-Keeps cr ns name
          (format ("Secret '" ∷ cm ∷ "' synced to namespace '" ∷ target ∷ "'" ∷ [])))

  -- A reconcile that starts where the finalizer is held or the Secret is gone ends there, too,
  -- if it returns an error. If it succeeds, the Secret of a deleted SecretSync is gone and
  -- the finalizer of a live one is held. This assumes what the API server documents of its calls,
  -- and that the finalizers of the resource that was read are those stored.
  pub reconcile-Settled :
      {Gone : W → Type 0} (cr : SecretSync)
      (g : Goes client cr.spec.target_namespace
        (secret_name (namespace_of cr.metadata.namespace) (name_any cr.metadata))
        Gone)
      → Leads
          (Before client finalizer Held Gone sync_kind cr)
          (Settled (is_being_deleted sync_kind cr) Held Gone)
          (Safe Held Gone)
          (reconcile client cr)
  unfolding reconcile cleanup manage
  reconcile-Settled cr g =
      named-Leads _ cr.metadata.namespace _ (λ w p. p.0)
        (paths_lead client h sync_kind secret_kind g (is_being_deleted sync_kind cr) _ cr _
          (Keeps-Leads (sync-Keeps cr _ _) (λ w held. inl held)))
