-- ===== src/ApiConfigSync/Reconciler/Refusals.antt =====
-- examples/apiconfigsync/src/reconciler.rs: a resource whose URL the policy refuses, or that has no
-- namespace.
use koprs.Prelude.{
  ◌≡◌, refl, ap, ◌∙◌, String, false, some, Result, ok, err, if◌then◌else◌, ok_or, if_false,
  if◌then◌else◌,
}
use koprs.Prelude.Tasks.{Task, continue, ◌>>=◌, done}
use koprs.Error.{KubeGenericError, missing_metadata, config}
use koprs.Kube.{is_being_deleted, name_any}
use koprs.Finalizers.{add_finalizer_namespaced}
use koprs.Operators.{Client, SyncStatus}
use koprs.Operators.ConfigMapSync.{ConfigMap}
use koprs.ApiConfigSync.Policy.{UrlPolicy, check}
use koprs.ApiConfigSync.Types.{ApiConfigSync, sync_kind}
use koprs.ApiConfigSync.Fetch.{Outside}
use koprs.ApiConfigSync.Reconciler.{finalizer, manage, sync, enforce, reconcile, cleanup}
use koprs.Controller.Reconcile.{Action}

-- Two bodies with the same first call, whose rests agree.
same_first :
    {W E A B : Type 0} (f g : A → Task W E B) (r : Result E A) (w : W)
    → ((a : A) (w : W) → f a w ≡ g a w)
    → continue r f w ≡ continue r g w
same_first f g (ok a) w h = h a w
same_first f g (err e) w h = refl

stopped :
    {W E A B : Type 0} (m : Task W E A) (f : A → Task W E B) (w w' : W) (e : E)
    → m w ≡ (err e, w')
    → (m >>= f) w ≡ (err e, w')
stopped m f w w' e h = ap (λ r. continue r.0 f r.1) h

module _ {W : Type 0} (client : Client W ApiConfigSync ConfigMap SyncStatus) (outside : Outside W)
    (policy : UrlPolicy) (cr : ApiConfigSync) (reason : String)
    (refused : check outside.parse_url outside.show_ip policy cr.spec.api_url ≡ err reason) where
  enforce-refused : (w : W) → enforce client outside policy cr w ≡ (err (config reason), w)
  enforce-refused w = rw (refused, enforce) refl

  sync-refused :
      (ns name : String) (w : W)
      → sync client outside policy cr ns name w ≡ (err (config reason), w)
  unfolding sync
  sync-refused ns name w =
      stopped (enforce client outside policy cr) _ w w (config reason) (enforce-refused w)

  -- A resource that is live and has a namespace, and whose URL the policy refuses: the reconcile
  -- adds the finalizer and then fails with the policy's reason. It reads no Secret, sends no request
  -- and touches no ConfigMap; the environment is the one that the finalizer's call left.
  pub reconcile-refused :
      (ns : String) (w : W)
      → cr.metadata.namespace ≡ some ns
      → is_being_deleted sync_kind cr ≡ false
      → reconcile client outside policy cr w
        ≡ (do
          added ← add_finalizer_namespaced sync_kind client.patch_finalizers cr finalizer
          done (err (config reason)))
            w
  unfolding reconcile manage
  reconcile-refused ns w placed live =
      let name = name_any cr.metadata in
      let added = add_finalizer_namespaced sync_kind client.patch_finalizers cr finalizer w in
      let body : String → Task W KubeGenericError Action = λ n.
        if is_being_deleted sync_kind cr
        then cleanup client outside policy cr n name
        else manage client outside policy cr n name in
      ap (λ o. (done (ok_or o (missing_metadata "namespace")) >>= body) w) placed
      ∙ ap (λ m. m w)
          (if_false (is_being_deleted sync_kind cr) _ (manage client outside policy cr ns name)
            live)
      ∙ same_first _ _ added.0 added.1 (λ a w'. sync-refused ns name w')
