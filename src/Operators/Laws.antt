-- ===== src/Operators/Laws.antt =====
-- What the calls of a reconciler do to the finalizer of its resource and to the child. `Held` says
-- that the stored resource carries the finalizer, `Gone` that the child is deleted or marked for
-- deletion. The laws are what the API server documents of each call, as long as nobody else takes
-- this finalizer away or makes the child meanwhile.
use koprs.Prelude.{◌≡◌, ◌⊎◌, String, true, Option, List, str_eq, any, ok, err}
use koprs.Error.{api}
use koprs.Kube.{KubeResource, DeleteParams, Target, namespaced}
use koprs.Finalizers.{Patch, json, add_finalizer_patch, current_finalizers}
use koprs.Resources.Metadata.{MetadataPatch}
use koprs.Status.Patches.{StatusPatch}
use koprs.Events.{Event}
use koprs.Operators.{Client}
use koprs.Operators.Leads.{Keeps}

module _ {W CR C S : Type 0} (client : Client W CR C S) where
  -- No other call takes the finalizer away, and the patch that adds it does when it is accepted.
  pub record Holds (finalizer : String) (Held : W → Type 0) : Type 0 where
    pub list_keeps : (t : Target) (s : Option String) → Keeps Held (client.children.list t s)
    pub get_keeps : (t : Target) (n : String) → Keeps Held (client.children.get t n)
    pub delete_keeps :
        (t : Target) (n : String) (p : DeleteParams) → Keeps Held (client.children.delete t n p)
    pub apply_keeps :
        (t : Target) (n : String) (r : C) (m : String) → Keeps Held (client.children.apply t n r m)
    pub metadata_keeps :
        (t : Target) (n : String) (p : MetadataPatch) → Keeps Held (client.patch_metadata t n p)
    pub status_keeps :
        (t : Target) (n : String) (p : StatusPatch S) (m : String)
        → Keeps Held (client.patch_status t n p m)
    pub event_keeps : (t : Target) (e : Event) → Keeps Held (client.create_event t e)
    pub add_keeps :
        (t : Target) (n : String) (l : List String)
        → Keeps Held (client.patch_finalizers t n (json (add_finalizer_patch l finalizer)))
    pub add_ok :
        (t : Target) (n : String) (l : List String) (w : W) (r : CR)
        → (client.patch_finalizers t n (json (add_finalizer_patch l finalizer)) w).0 ≡ ok r
        → Held (client.patch_finalizers t n (json (add_finalizer_patch l finalizer)) w).1

  -- A delete of the child that is accepted, or answered with 404, leaves it gone; a patch of the
  -- resource's finalizers does not bring it back.
  pub record Goes (namespace name : String) (Gone : W → Type 0) : Type 0 where
    pub delete_keeps :
        (p : DeleteParams) → Keeps Gone (client.children.delete (namespaced namespace) name p)
    pub delete_ok :
        (p : DeleteParams) (w : W)
        → (client.children.delete (namespaced namespace) name p w).0 ≡ ok tt
        → Gone (client.children.delete (namespaced namespace) name p w).1
    pub delete_missing :
        (p : DeleteParams) (w : W)
        → (client.children.delete (namespaced namespace) name p w).0 ≡ err (api 404)
        → Gone (client.children.delete (namespaced namespace) name p w).1
    pub finalizers_keep :
        (t : Target) (n : String) (p : Patch) → Keeps Gone (client.patch_finalizers t n p)

-- The child does not outlive its resource: the finalizer is held, or the child is gone.
abbrev pub Safe : {W : Type 0} → (W → Type 0) → (W → Type 0) → W → Type 0
Safe Held Gone w = Held w ⊎ Gone w

-- Before a reconcile: safe, and a finalizer on the resource as it was read is stored.
abbrev pub Before :
    {W CR C S : Type 0}
    → Client W CR C S
    → String
    → (W → Type 0)
    → (W → Type 0)
    → KubeResource CR
    → CR
    → W
    → Type 0
Before client finalizer Held Gone kind cr w =
    Safe Held Gone w
    × ((any (λ f. str_eq f finalizer) (current_finalizers kind client.patch_finalizers cr) ≡ true)
        → Held w)
