-- ===== src/Operators/Placed.antt =====
-- examples/*/src: what the normal path does to the child that the reconciler built. `Placed` says
-- that this child is stored. The laws are what the API server documents of each call, as long as
-- nobody else changes or deletes the child meanwhile.
use koprs.Prelude.{
  ◌≡◌, ◌≢◌, refl, String, Bool, true, false, Option, some, List, [], ◌∷◌, Result, ok, err, map_err,
  if◌then◌else◌, str_eq, eq_iff, arith,
}
use koprs.Prelude.Tasks.{Task, continue, ◌>>=◌, ◌>>◌, done}
use koprs.Error.{KubeError, KubeGenericError, kube}
use koprs.Kube.{KubeResource, DeleteParams, Target, namespaced, is_being_deleted, name_any}
use koprs.Scope.{Scope, in_namespace, into_api}
use koprs.Gc.{gc_resources, gc_loop, delete_orphan, is_blank}
use koprs.Resources.{EnsureOutcome, ensure_resource, get_resource, apply_resource}
use koprs.Resources as Resources
use koprs.Resources.Metadata.{MetadataPatch, patch_labels, patch_metadata}
use koprs.Status.Patches.{StatusPatch, patch_status_namespaced, patch_status, apply_status_patch}
use koprs.Events.{Event, EventType, record_event}
use koprs.Operators.{Client}
use koprs.Operators.Leads.{
  After, Leads, Keeps, bind-Leads, bind-Keeps, done-Keeps, done-Leads, if_Keeps, Keeps-Leads,
}

-- Nothing is asked, or nothing is known.
abbrev pub Any : {W : Type 0} → W → Type 0
Any w = Unit {0}

pub any-Leads : {W E A : Type 0} (m : Task W E A) → Leads Any Any Any m
any-Leads m = Keeps-Leads (record { across = λ w p. tt }) (λ w p. p)

module _ {W CR C S : Type 0} (client : Client W CR C S) where
  -- An apply that is accepted stores the child, and no call but one on the child's own name
  -- takes it away.
  pub record Places (namespace name : String) (child : C) (manager : String) (Placed : W → Type 0)
      : Type 0 where
    pub apply_ok :
        (w : W) (r : C)
        → (client.children.apply (namespaced namespace) name child manager w).0 ≡ ok r
        → Placed (client.children.apply (namespaced namespace) name child manager w).1
    pub list_keeps : (t : Target) (s : Option String) → Keeps Placed (client.children.list t s)
    pub delete_keeps :
        (t : Target) (n : String) (p : DeleteParams)
        → n ≢ name
        → Keeps Placed (client.children.delete t n p)
    pub metadata_keeps :
        (t : Target) (n : String) (p : MetadataPatch) → Keeps Placed (client.patch_metadata t n p)
    pub status_keeps :
        (t : Target) (n : String) (p : StatusPatch S) (m : String)
        → Keeps Placed (client.patch_status t n p m)
    pub event_keeps : (t : Target) (e : Event) → Keeps Placed (client.create_event t e)

  module _ {namespace name manager : String} {child : C} {Placed : W → Type 0}
      (law : Places namespace name child manager Placed) (child_kind : KubeResource C) where
    applied :
        (r : Result KubeError C) (w : W)
        → ((x : C) → r ≡ ok x → Placed w)
        → After Placed Any (map_err kube r, w)
    applied (ok x) w placed = placed x refl
    applied (err e) w placed = tt

    apply-Leads :
        (child_kind.meta child).name ≡ some name
        → Leads Any Placed Any
            (apply_resource child_kind client.children (in_namespace namespace) child manager)
    unfolding apply_resource into_api
    apply-Leads named = rw named (record { from = λ w p. applied _ _ (λ x e. law.apply_ok w x e) })

    ensure-Leads :
        (child_kind.meta child).name ≡ some name
        → Leads Any Placed Any
            (ensure_resource child_kind client.children (in_namespace namespace) child manager)
    unfolding ensure_resource
    ensure-Leads named =
        bind-Leads (any-Leads (done (Resources.required_name child_kind client.children child)))
          (λ n.
            bind-Leads
              (any-Leads (get_resource child_kind client.children (in_namespace namespace) n))
              (λ live. bind-Leads (apply-Leads named) (λ a. done-Leads _ (λ w p. p) (λ w p. tt))))

    orphan-Keeps :
        (s : Scope) (r : C)
        → name_any (child_kind.meta r) ≢ name
        → Keeps Placed (delete_orphan child_kind client.children s r)
    unfolding delete_orphan
    orphan-Keeps s r other = record { across = (law.delete_keeps _ _ _ other).across }

    one-Keeps :
        (s : Scope) (r : C) {rest : Task W KubeGenericError (Unit {0})} (b : Bool)
        → (b ≡ false → name_any (child_kind.meta r) ≢ name)
        → Keeps Placed rest
        → Keeps Placed (
            if b
            then rest
            else if is_being_deleted child_kind r
            then rest
            else (do delete_orphan child_kind client.children s r; rest))
    one-Keeps s r true other rest = rest
    one-Keeps s r false other rest =
        if_Keeps (is_being_deleted child_kind r) rest
          (bind-Keeps (orphan-Keeps s r (other refl)) (λ u. rest))

    loop-Keeps :
        (s : Scope) (desired : C → Bool) (rs : List C)
        → ((r : C) → desired r ≡ false → name_any (child_kind.meta r) ≢ name)
        → Keeps Placed (gc_loop child_kind client.children s desired rs)
    unfolding gc_loop
    loop-Keeps s desired [] others = done-Keeps (ok tt)
    loop-Keeps s desired (r ∷ rs) others =
        one-Keeps s r (desired r) (others r) (loop-Keeps s desired rs others)

    listed_keeps :
        (s : Scope) (desired : C → Bool) (r : Result KubeError (List C)) (w : W)
        → ((r : C) → desired r ≡ false → name_any (child_kind.meta r) ≢ name)
        → Placed w
        → Placed
            (elim r as (λ x. Result KubeGenericError (Unit {0}) × W) [
              | err e ↦ (err (kube e), w)
              | ok existing ↦ gc_loop child_kind client.children s desired existing w
            ]).1
    listed_keeps s desired (err e) w others p = p
    listed_keeps s desired (ok existing) w others p =
        (loop-Keeps s desired existing others).across w p

    gc-Keeps :
        (s : Scope) (selector : String) (desired : C → Bool)
        → ((r : C) → desired r ≡ false → name_any (child_kind.meta r) ≢ name)
        → Keeps Placed (gc_resources child_kind client.children s selector desired)
    unfolding gc_resources
    gc-Keeps s selector desired others = if_Keeps (is_blank selector) (done-Keeps _) (record {
      across = λ w p. listed_keeps s desired _ _ others ((law.list_keeps _ _).across w p);
    })

    labels-Keeps :
        (s : Scope) (n : String) (pairs : List (String × String))
        → Keeps Placed (patch_labels client.patch_metadata s n pairs)
    unfolding patch_labels patch_metadata
    labels-Keeps s n pairs = record { across = (law.metadata_keeps (into_api s) n _).across }

    pub status_patch-Keeps :
        (kind : KubeResource CR) (ns n : String) (s : S) (m : String)
        → Keeps Placed (patch_status_namespaced kind client.patch_status ns n s m)
    unfolding patch_status_namespaced patch_status apply_status_patch
    status_patch-Keeps kind ns n s m = record { across = (law.status_keeps _ n _ m).across }

    pub record_event-Keeps :
        (kind : KubeResource CR) (r : CR) (t : EventType) (action reason note controller : String)
        → Keeps Placed
            (record_event kind client.process client.create_event r t action reason note controller)
    unfolding record_event
    record_event-Keeps kind r t action reason note controller = record {
      across = λ w p. (law.event_keeps _ _).across w p;
    }

    -- The steps of the normal path after the finalizer.
    pub steps_place :
        {A B : Type 0} (own : Scope) (selector owner : String) (desired : C → Bool)
        (pairs : List (String × String)) (r : Result KubeGenericError B)
        {report : EnsureOutcome C → Task W KubeGenericError (Unit {0})}
        {write : Task W KubeGenericError A}
        → (child_kind.meta child).name ≡ some name
        → ((r : C) → desired r ≡ false → name_any (child_kind.meta r) ≢ name)
        → ((o : EnsureOutcome C) → Keeps Placed (report o))
        → Keeps Placed write
        → Leads Any Placed Any (do
          outcome ←
              ensure_resource child_kind client.children (in_namespace namespace) child manager
          report outcome
          gc_resources child_kind client.children (in_namespace namespace) selector desired
          labelled ← patch_labels client.patch_metadata own owner pairs
          written ← write
          done r)
    steps_place own selector owner desired pairs r named others reported written =
        bind-Leads (ensure-Leads named) (λ o.
          Keeps-Leads
            (bind-Keeps (reported o) (λ u.
              bind-Keeps (gc-Keeps (in_namespace namespace) selector desired others) (λ u'.
                bind-Keeps (labels-Keeps own owner pairs)
                  (λ l. bind-Keeps written (λ s. done-Keeps r)))))
            (λ w p. tt))

-- A live resource is led where the normal path leads, and whatever stands before it does not matter.
pub live-Leads :
    {W A B : Type 0} {Q : W → Type 0} (deleted : Bool) (gone : Task W KubeGenericError A)
    (added : Task W KubeGenericError B) {rest : Task W KubeGenericError A}
    → deleted ≡ false
    → Leads Any Q Any rest
    → Leads Any Q Any (if deleted then gone else (do a ← added; rest))
live-Leads true gone added e lead = cc
live-Leads false gone added e lead = bind-Leads (any-Leads added) (λ a. lead)

-- What a collection that spares one name does not spare has another name.
pub spared : (a b : String) → str_eq a b ≡ false → a ≢ b
spared a b e same = ground (arith, eq_iff a b)

told :
    {W E A B : Type 0} (Q : W → Type 0) (f : A → Task W E B) (r : Result E A) (w : W)
    → ((a : A) → r ≡ ok a → Leads Any Q Any (f a))
    → After Q Any (continue r f w)
told Q f (ok a) w lead = (lead a refl).from w tt
told Q f (err e) w lead = tt

-- The rest of a body is led where it goes for each value that the first part did return.
pub told-Leads :
    {W E A B : Type 0} {Q : W → Type 0} (m : Task W E A) {f : A → Task W E B}
    → ((a : A) (w : W) → (m w).0 ≡ ok a → Leads Any Q Any (f a))
    → Leads Any Q Any (m >>= f)
told-Leads {Q = Q} m {f} next = record {
  from = λ w p. told Q f (m w).0 (m w).1 (λ a e. next a w e);
}
