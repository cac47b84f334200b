-- ===== src/ApiConfigSync/Reconciler/Leaks.antt =====
-- examples/apiconfigsync/src/reconciler.rs: the ConfigMap does not outlive its ApiConfigSync.
use koprs.Prelude.{
  ◌≡◌, refl, inl, String, Option, none, some, [], ◌∷◌, str_eq, Result, ok, err, ok_or,
}
use koprs.Prelude.Tasks.{Task, ◌>>=◌, done}
use koprs.Error.{KubeGenericError, config}
use koprs.Kube.{Target, namespaced, is_being_deleted, name_any}
use koprs.Scope.{in_namespace}
use koprs.Leader.Config.{from_secs}
use koprs.Controller.Reconcile.{requeue}
use koprs.Resources.{EnsureOutcome, created, updated, unchanged}
use koprs.Operators.{Client, SyncStatus}
use koprs.Operators.Leads.{Leads, Keeps, bind-Leads, bind-Keeps, done-Keeps, Keeps-Leads, and_Keeps}
use koprs.Operators.Laws.{Holds, Goes, Safe, Before}
use koprs.Operators.Steps.{status_patch-Keeps, record_event-Keeps}
use koprs.Operators.Leaks.{namespace_of, Settled, steps_keep, paths_lead, named-Leads}
use koprs.Operators.ConfigMapSync.{ConfigMap, config_map_kind}
use koprs.ApiConfigSync.Policy.{Url, UrlPolicy, check}
use koprs.ApiConfigSync.Policy.Checked.{Admits, check_iff}
use koprs.ApiConfigSync.Types.{SecretKeyRef, ApiConfigSync, sync_kind}
use koprs.ApiConfigSync.Fetch.{
  Outside, bytes_at, get_secret, read_token, optional_token, fetch, build_poller,
}
use koprs.ApiConfigSync.Reconciler.{
  finalizer, field_manager, configmap_name, owner_selector, build_configmap, report, message_of,
  write_status, cleanup, apply_body, sync, manage, reconcile,
}

-- The policy lets the URL of the resource through.
abbrev pub Allowed : {W : Type 0} → Outside W → UrlPolicy → ApiConfigSync → Type 0
Allowed outside policy cr =
    (u : Url) × Admits outside.parse_url outside.show_ip policy cr.spec.api_url u

-- The calls outside the library keep the finalizer.
pub record Apart {W : Type 0} (outside : Outside W) (Held : W → Type 0) : Type 0 where
  pub secret_keeps : (t : Target) (n : String) → Keeps Held (outside.secrets.get t n)
  pub exchange_keeps : (w : W) → Held w → Held (outside.exchange w).1

module _ {W : Type 0} (client : Client W ApiConfigSync ConfigMap SyncStatus) {Held : W → Type 0}
    (h : Holds client finalizer Held) (outside : Outside W) (policy : UrlPolicy) where
  report-Keeps :
      (cr : ApiConfigSync) (cm target : String) (o : EnsureOutcome ConfigMap)
      → Keeps Held (report client outside policy cr cm target o)
  report-Keeps cr cm target (created r) =
      record_event-Keeps client h sync_kind config_map_kind cr _ _ _ _ _
  report-Keeps cr cm target (updated r) =
      record_event-Keeps client h sync_kind config_map_kind cr _ _ _ _ _
  report-Keeps cr cm target (unchanged r) = done-Keeps (ok tt)

  write-Keeps :
      (cr : ApiConfigSync) (ns name message : String)
      → Keeps Held (write_status client outside policy cr ns name message)
  write-Keeps cr ns name message = record {
    across = λ w. (status_patch-Keeps client h sync_kind config_map_kind ns name _ _).across w;
  }

  body-Keeps :
      (cr : ApiConfigSync) (ns name config_body : String)
      → Keeps Held (apply_body client outside policy cr ns name config_body)
  unfolding apply_body
  body-Keeps cr ns name config_body =
      let target = cr.spec.target_namespace in
      let cm = configmap_name ns name in
      steps_keep client h sync_kind config_map_kind (in_namespace target) (in_namespace ns)
        (build_configmap cm target ns name cr.spec.config_key config_body) field_manager
        (owner_selector ns name) name (λ r. str_eq (name_any r.metadata) cm)
        (("apiconfigsync.example.io/synced-to", target) ∷ []) (ok (requeue (from_secs 300)))
        (report-Keeps cr cm target)
        (write-Keeps cr ns name (message_of client outside policy cr cm))

  enforced_lem :
      (cr : ApiConfigSync) (r : Result String Url) {Safe_ : W → Type 0}
      → check outside.parse_url outside.show_ip policy cr.spec.api_url ≡ r
      → ((w : W) → Held w → Safe_ w)
      → Leads Held
          (λ w. Held w × Allowed outside policy cr)
          Safe_
          (elim r as (λ x. Task W KubeGenericError (Unit {0})) [
            | err reason ↦ done (err (config reason))
            | ok url ↦ done (ok tt)
          ])
  enforced_lem cr (err e) same safe = record { from = safe }
  enforced_lem cr (ok u) same safe = record {
    from = λ w held.
        (held, (u, (check_iff outside.parse_url outside.show_ip policy cr.spec.api_url u).0 same));
  }

  module _ (apart : Apart outside Held) where
    secret_read : (ns name : String) → Keeps Held (get_secret outside ns name)
    secret_read ns name = record { across = (apart.secret_keeps (namespaced ns) name).across }

    token-Keeps : (ns : String) (r : SecretKeyRef) → Keeps Held (read_token outside ns r)
    unfolding read_token
    token-Keeps ns r = bind-Keeps (secret_read ns r.name) (λ found.
        bind-Keeps (done-Keeps (ok_or found _)) (λ secret.
          bind-Keeps (done-Keeps (ok_or (bytes_at r.key secret.data_) _)) (λ bytes.
            bind-Keeps (done-Keeps (ok_or (outside.from_utf8 bytes) _)) (λ token. done-Keeps _))))

    optional-Keeps :
        (ns : String) (r : Option SecretKeyRef) → Keeps Held (optional_token outside ns r)
    optional-Keeps ns none = done-Keeps (ok none)
    optional-Keeps ns (some r) =
        bind-Keeps (token-Keeps ns r) (λ token. done-Keeps (ok (some token)))

    fetched-Keeps :
        (cr : ApiConfigSync) (ns name : String)
        → Keeps Held (do
          token ← optional_token outside ns cr.spec.bearer_token_secret_ref
          config_body ← fetch outside (build_poller cr.spec.api_url token ns name)
          apply_body client outside policy cr ns name config_body)
    fetched-Keeps cr ns name =
        bind-Keeps (optional-Keeps ns cr.spec.bearer_token_secret_ref) (λ token.
          bind-Keeps (record { across = λ w held. apart.exchange_keeps w held })
            (λ config_body. body-Keeps cr ns name config_body))

    -- A reconcile that starts where the finalizer is held or the ConfigMap is gone ends there, too,
    -- if it returns an error. If it succeeds, the ConfigMap of a deleted ApiConfigSync is gone; the
    -- finalizer of a live one is held, and the policy lets its URL through. This assumes what the
    -- API server documents of its calls, and that the finalizers of the resource that was read are
    -- those stored.
    pub reconcile_settles :
        {Gone : W → Type 0} (cr : ApiConfigSync)
        (g : Goes client cr.spec.target_namespace
          (configmap_name (namespace_of cr.metadata.namespace) (name_any cr.metadata))
          Gone)
        → Leads
            (Before client finalizer Held Gone sync_kind cr)
            (Settled (is_being_deleted sync_kind cr) (λ w. Held w × Allowed outside policy cr) Gone)
            (Safe Held Gone)
            (reconcile client outside policy cr)
    unfolding reconcile cleanup manage sync
    reconcile_settles cr g =
        named-Leads _ cr.metadata.namespace _ (λ w p. p.0)
          (paths_lead client h sync_kind config_map_kind g (is_being_deleted sync_kind cr) _ cr _ (
            bind-Leads (enforced_lem cr _ refl (λ w held. inl held))
              (λ u. Keeps-Leads (and_Keeps (fetched-Keeps cr _ _)) (λ w q. inl q.0))))
