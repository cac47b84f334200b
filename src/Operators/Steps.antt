-- ===== src/Operators/Steps.antt =====
-- What the library's functions do to the finalizer and the child, from the laws of the calls.
use koprs.Prelude.{
  ℕ, ◌≡◌, inl, inr, refl, ap, String, Bool, true, false, Option, none, some, List, [], ◌∷◌, ◌==◌,
  str_eq, any, arith, Result, ok, err, map_err, Bool-cases,
}
use koprs.Error.{KubeError, KubeGenericError, api, client as other, kube}
use koprs.Kube.{KubeResource, DeleteParams, Target, namespaced, is_being_deleted}
use koprs.Scope.{Scope, in_namespace, into_api}
use koprs.Finalizers.{
  json, patched, add_unless, remove_at, add_finalizer_patch, add_finalizer_namespaced,
  add_finalizer, remove_finalizer, required_name, required_namespace, current_finalizers,
}
use koprs.Gc.{gc_resources, gc_loop, delete_orphan, is_blank}
use koprs.Resources.{
  EnsureOutcome, delete_resource, delete_answer, ensure_resource, get_resource, apply_resource,
}
use koprs.Resources as Resources
use koprs.Resources.Metadata.{patch_labels, patch_metadata}
use koprs.Status.Patches.{patch_status_namespaced, patch_status, apply_status_patch}
use koprs.Events.{EventType, record_event}
use koprs.Operators.{Client}
use koprs.Operators.Leads.{
  After, Leads, Keeps, bind-Leads, bind-Keeps, done-Keeps, done-Leads, if_Keeps,
}
use koprs.Operators.Laws.{Holds, Goes, Safe, Before}

module _ {W CR C S : Type 0} (client : Client W CR C S) where
  module _ {finalizer : String} {Held : W → Type 0} (h : Holds client finalizer Held)
      (kind : KubeResource CR) (child_kind : KubeResource C) where
    get_resource-Keeps :
        (s : Scope) (n : String) → Keeps Held (get_resource child_kind client.children s n)
    unfolding get_resource
    get_resource-Keeps s n = record { across = (h.get_keeps (into_api s) n).across }

    apply_resource-Keeps :
        (s : Scope) (r : C) (m : String)
        → Keeps Held (apply_resource child_kind client.children s r m)
    unfolding apply_resource
    apply_resource-Keeps s r m =
        bind-Keeps (done-Keeps (Resources.required_name child_kind client.children r))
          (λ n. record { across = (h.apply_keeps (into_api s) n r m).across })

    pub ensure-Keeps :
        (s : Scope) (r : C) (m : String)
        → Keeps Held (ensure_resource child_kind client.children s r m)
    unfolding ensure_resource
    ensure-Keeps s r m =
        bind-Keeps (done-Keeps (Resources.required_name child_kind client.children r)) (λ n.
          bind-Keeps (get_resource-Keeps s n)
            (λ live. bind-Keeps (apply_resource-Keeps s r m) (λ a. done-Keeps _)))

    orphan-Keeps : (s : Scope) (r : C) → Keeps Held (delete_orphan child_kind client.children s r)
    unfolding delete_orphan
    orphan-Keeps s r = record { across = (h.delete_keeps _ _ _).across }

    loop-Keeps :
        (s : Scope) (desired : C → Bool) (rs : List C)
        → Keeps Held (gc_loop child_kind client.children s desired rs)
    unfolding gc_loop
    loop-Keeps s desired [] = done-Keeps (ok tt)
    loop-Keeps s desired (r ∷ rs) =
        let rest = loop-Keeps s desired rs in
        if_Keeps (desired r) rest (
          if_Keeps (is_being_deleted child_kind r) rest (bind-Keeps (orphan-Keeps s r) (λ u. rest)))

    listed_keeps :
        (s : Scope) (desired : C → Bool) (r : Result KubeError (List C)) (w : W)
        → Held w
        → Held
            (elim r as (λ x. Result KubeGenericError (Unit {0}) × W) [
              | err e ↦ (err (kube e), w)
              | ok existing ↦ gc_loop child_kind client.children s desired existing w
            ]).1
    listed_keeps s desired (err e) w p = p
    listed_keeps s desired (ok existing) w p = (loop-Keeps s desired existing).across w p

    pub gc-Keeps :
        (s : Scope) (selector : String) (desired : C → Bool)
        → Keeps Held (gc_resources child_kind client.children s selector desired)
    unfolding gc_resources
    gc-Keeps s selector desired =
        if_Keeps (is_blank selector) (done-Keeps _)
          (record { across = λ w p. listed_keeps s desired _ _ ((h.list_keeps _ _).across w p) })

    pub labels-Keeps :
        (s : Scope) (n : String) (pairs : List (String × String))
        → Keeps Held (patch_labels client.patch_metadata s n pairs)
    unfolding patch_labels patch_metadata
    labels-Keeps s n pairs = record { across = (h.metadata_keeps (into_api s) n _).across }

    pub status_patch-Keeps :
        (ns n : String) (s : S) (m : String)
        → Keeps Held (patch_status_namespaced kind client.patch_status ns n s m)
    unfolding patch_status_namespaced patch_status apply_status_patch
    status_patch-Keeps ns n s m = record { across = (h.status_keeps _ n _ m).across }

    pub record_event-Keeps :
        (r : CR) (t : EventType) (action reason note controller : String)
        → Keeps Held
            (record_event kind client.process client.create_event r t action reason note controller)
    unfolding record_event
    record_event-Keeps r t action reason note controller = record {
      across = λ w p. (h.event_keeps _ _).across w p;
    }

  module _ {finalizer namespace name : String} {Held Gone : W → Type 0}
      (h : Holds client finalizer Held) (g : Goes client namespace name Gone)
      (kind : KubeResource CR) (child_kind : KubeResource C) where
    answered :
        (r : Result KubeError CR) (w : W)
        → Safe Held Gone w
        → ((x : CR) → r ≡ ok x → Held w)
        → After Held (Safe Held Gone) (map_err kube r, w)
    answered (ok x) w safe held = held x refl
    answered (err e) w safe held = safe

    patched-Leads :
        (t : Target) (n : String) (l : List String)
        → Leads
            (Safe Held Gone)
            Held
            (Safe Held Gone)
            (patched kind client.patch_finalizers t n (json (add_finalizer_patch l finalizer)))
    patched-Leads t n l = record {
      from = λ w s.
          answered _ _
            (elim s [
              | inl held ↦ inl ((h.add_keeps t n l).across w held)
              | inr gone ↦ inr ((g.finalizers_keep t n _).across w gone)
            ])
            (λ x e. h.add_ok t n l w x e);
    }

    unless-Leads :
        (s : Scope) (cr : CR) (n : String) (b : Bool)
        → any (λ f. str_eq f finalizer) (current_finalizers kind client.patch_finalizers cr) ≡ b
        → Leads
            (Before client finalizer Held Gone kind cr)
            Held
            (Safe Held Gone)
            (add_unless kind client.patch_finalizers s cr finalizer n b)
    unless-Leads s cr n true e = record { from = λ w p. p.1 e }
    unless-Leads s cr n false e = record {
      from = λ w p. (patched-Leads (into_api s) n _).from w p.0;
    }

    add_at :
        (s : Scope) (cr : CR)
        → Leads
            (Before client finalizer Held Gone kind cr)
            Held
            (Safe Held Gone)
            (add_finalizer kind client.patch_finalizers s cr finalizer)
    unfolding add_finalizer
    add_at s cr =
        bind-Leads
          (done-Leads (required_name kind client.patch_finalizers cr) (λ w p. p) (λ w p. p.0))
          (λ n. unless-Leads s cr n _ refl)

    pub add-Leads :
        (cr : CR)
        → Leads
            (Before client finalizer Held Gone kind cr)
            Held
            (Safe Held Gone)
            (add_finalizer_namespaced kind client.patch_finalizers cr finalizer)
    unfolding add_finalizer_namespaced
    add-Leads cr =
        bind-Leads
          (done-Leads (required_namespace kind client.patch_finalizers cr) (λ w p. p) (λ w p. p.0))
          (λ n. add_at (in_namespace n) cr)

    deleted_or_safe :
        (r : Result KubeError (Unit {0})) (w : W)
        → Safe Held Gone w
        → (r ≡ ok tt → Gone w)
        → (r ≡ err (api 404) → Gone w)
        → After Gone (Safe Held Gone) (delete_answer r, w)
    deleted_or_safe (ok u) w safe taken missing = taken refl
    deleted_or_safe (err (api code)) w safe taken missing = elim (Bool-cases (code == 404)) [
      | inl same ↦ rw same (missing (ap (λ c. err (api c)) (ground arith)))
      | inr different ↦ rw different safe
    ]
    deleted_or_safe (err (other e)) w safe taken missing = safe

    pub delete-Leads :
        Leads
          (Safe Held Gone)
          Gone
          (Safe Held Gone)
          (delete_resource child_kind client.children (in_namespace namespace) name)
    unfolding delete_resource into_api
    delete-Leads =
        let p : DeleteParams = record { background = false; uid_precondition = none } in
        record {
          from = λ w s.
              let answer = client.children.delete (namespaced namespace) name p w in
              deleted_or_safe answer.0 answer.1
                (elim s [
                  | inl held ↦ inl ((h.delete_keeps (namespaced namespace) name p).across w held)
                  | inr gone ↦ inr ((g.delete_keeps p).across w gone)
                ])
                (g.delete_ok p w) (g.delete_missing p w);
        }

    remove_at-Keeps :
        (s : Scope) (cr : CR) (n : String) (i : Option ℕ)
        → Keeps Gone (remove_at kind client.patch_finalizers s cr finalizer n i)
    remove_at-Keeps s cr n none = done-Keeps (ok cr)
    remove_at-Keeps s cr n (some i) = record { across = (g.finalizers_keep _ n _).across }

    pub remove-Keeps :
        (s : Scope) (cr : CR)
        → Keeps Gone (remove_finalizer kind client.patch_finalizers s cr finalizer)
    unfolding remove_finalizer
    remove-Keeps s cr =
        bind-Keeps (done-Keeps (required_name kind client.patch_finalizers cr))
          (λ n. remove_at-Keeps s cr n _)
