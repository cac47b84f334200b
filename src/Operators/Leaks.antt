-- ===== src/Operators/Leaks.antt =====
-- examples/*/src: the deletion path and the normal path of a reconciler, as bodies of the calls
-- that the four reconcilers share.
use koprs.Prelude.{
  inr, String, Bool, true, false, Option, none, some, List, Result, ok, if◌then◌else◌, ok_or,
}
use koprs.Prelude.Tasks.{Task, ◌>>=◌, ◌>>◌, done}
use koprs.Error.{KubeGenericError}
use koprs.Kube.{KubeResource}
use koprs.Scope.{Scope, in_namespace}
use koprs.Finalizers.{add_finalizer_namespaced, remove_finalizer}
use koprs.Gc.{gc_resources}
use koprs.Resources.{EnsureOutcome, delete_resource, ensure_resource}
use koprs.Resources.Metadata.{patch_labels}
use koprs.Operators.{Client}
use koprs.Operators.Leads.{Leads, Keeps, bind-Leads, bind-Keeps, done-Keeps, Keeps-Leads}
use koprs.Operators.Laws.{Holds, Goes, Safe, Before}
use koprs.Operators.Steps.{
  add-Leads, delete-Leads, remove-Keeps, ensure-Keeps, gc-Keeps, labels-Keeps,
}

-- The namespace of a resource, or an empty one.
abbrev pub namespace_of : Option String → String
namespace_of none = ""
namespace_of (some ns) = ns

-- Where a reconcile that succeeds ends: the child of a deleted resource is gone, the finalizer of
-- a live one is held.
abbrev pub Settled : {W : Type 0} → Bool → (W → Type 0) → (W → Type 0) → W → Type 0
Settled true Live Gone w = Gone w
Settled false Live Gone w = Live w

module _ {W CR C S : Type 0} (client : Client W CR C S) {finalizer : String} {Held : W → Type 0}
    (h : Holds client finalizer Held) (kind : KubeResource CR) (child_kind : KubeResource C) where
  -- The steps after the finalizer keep it.
  pub steps_keep :
      {A B : Type 0} (scope own : Scope) (child : C) (manager selector name : String)
      (desired : C → Bool) (pairs : List (String × String)) (r : Result KubeGenericError B)
      {report : EnsureOutcome C → Task W KubeGenericError (Unit {0})}
      {write : Task W KubeGenericError A}
      → ((o : EnsureOutcome C) → Keeps Held (report o))
      → Keeps Held write
      → Keeps Held (do
        outcome ← ensure_resource child_kind client.children scope child manager
        report outcome
        gc_resources child_kind client.children scope selector desired
        labelled ← patch_labels client.patch_metadata own name pairs
        written ← write
        done r)
  steps_keep scope own child manager selector name desired pairs r reported written =
      bind-Keeps (ensure-Keeps client h kind child_kind _ _ _) (λ o. bind-Keeps (reported o) (λ u.
        bind-Keeps (gc-Keeps client h kind child_kind _ _ _) (λ u'.
          bind-Keeps (labels-Keeps client h kind child_kind _ _ _)
            (λ l. bind-Keeps written (λ s. done-Keeps r)))))

  module _ {namespace name : String} {Gone : W → Type 0} (g : Goes client namespace name Gone) where
    cleanup-Leads :
        {A : Type 0} (own : Scope) (cr : CR) (a : A)
        → Leads (Safe Held Gone) Gone (Safe Held Gone) (do
          gone ← delete_resource child_kind client.children (in_namespace namespace) name
          rest ← remove_finalizer kind client.patch_finalizers own cr finalizer
          done (ok a))
    cleanup-Leads own cr a = bind-Leads (delete-Leads client h g kind child_kind) (λ b.
        Keeps-Leads
          (bind-Keeps (remove-Keeps client h g kind child_kind own cr) (λ c. done-Keeps (ok a)))
          (λ w gone. inr gone))

    manage-Leads :
        {A : Type 0} {Live : W → Type 0} {rest : Task W KubeGenericError A} (cr : CR)
        → Leads Held Live (Safe Held Gone) rest
        → Leads
            (Before client finalizer Held Gone kind cr)
            Live
            (Safe Held Gone)
            (do added ← add_finalizer_namespaced kind client.patch_finalizers cr finalizer; rest)
    manage-Leads cr lead = bind-Leads (add-Leads client h g kind child_kind cr) (λ c. lead)

    -- One of the two paths, as the resource is being deleted or not.
    pub paths_lead :
        {A : Type 0} {Live : W → Type 0} {rest : Task W KubeGenericError A} (deleted : Bool)
        (own : Scope) (cr : CR) (a : A)
        → Leads Held Live (Safe Held Gone) rest
        → Leads
            (Before client finalizer Held Gone kind cr)
            (Settled deleted Live Gone)
            (Safe Held Gone)
            (if deleted
              then (do
                gone ← delete_resource child_kind client.children (in_namespace namespace) name
                rest ← remove_finalizer kind client.patch_finalizers own cr finalizer
                done (ok a))
              else (do
                added ← add_finalizer_namespaced kind client.patch_finalizers cr finalizer
                rest))
    paths_lead true own cr a lead = record { from = λ w p. (cleanup-Leads own cr a).from w p.0 }
    paths_lead false own cr a lead = manage-Leads cr lead

-- A resource without a namespace is not touched.
pub named-Leads :
    {W E A : Type 0} {P Q R : W → Type 0} (body : String → Task W E A) (ns : Option String) (e : E)
    → ((w : W) → P w → R w)
    → Leads P Q R (body (namespace_of ns))
    → Leads P Q R (done (ok_or ns e) >>= body)
named-Leads body none e weak lead = record { from = weak }
named-Leads body (some ns) e weak lead = lead
