-- ===== src/Owners/References.antt =====
-- crates/koprs/src/owners.rs: the object references of a listing.
use mathlib.Core.List.{append_assoc, append-nil}
use koprs.Prelude.Results.{err_ok}
use koprs.Prelude.{
  ◌≡◌, ◌↔◌, refl, sym, subst, ap, ◌∙◌, String, Option, none, some, List, [], ◌∷◌, ◌++◌, ok,
  Option-cases, inl, inr,
}
use koprs.Kube.{KubeResource, ApiServer}
use koprs.Scope.{Scope, into_api}
use koprs.Owners.{ObjectRef, new, within_opt, push_refs, make_object_refs}

module _ {T : Type 0} (k : KubeResource T) where
  -- A reference names a resource: its name and its namespace, when it has one.
  abbrev pub Names : T → ObjectRef → Type 0
  Names r ref = ((k.meta r).name ≡ some ref.name) × ((k.meta r).namespace ≡ ref.namespace)

  -- One reference for each resource, in order.
  abbrev pub NamesAll : List T → List ObjectRef → Type 0
  NamesAll [] [] = Unit {0}
  NamesAll (r ∷ rs) (ref ∷ refs) = Names r ref × NamesAll rs refs
  NamesAll _ _ = ⊥

  within_opt_eq :
      (name : String) (ns : Option String)
      → within_opt (new name) ns ≡ record { name = name; namespace = ns }
  within_opt_eq name none = refl
  within_opt_eq name (some ns) = refl

  within_opt-Names :
      (r : T) (name : String)
      → (k.meta r).name ≡ some name
      → Names r (within_opt (new name) (k.meta r).namespace)
  within_opt-Names r name e =
      subst (λ ref. Names r ref) (sym (within_opt_eq name (k.meta r).namespace)) (e, refl)

  push_refs_sound :
      (rs : List T) (before refs : List ObjectRef)
      → push_refs k rs before ≡ ok refs
      → (more : List ObjectRef) × (refs ≡ before ++ more) × NamesAll rs more
  unfolding push_refs
  push_refs_sound [] before refs h =
      ([], (let same : before ≡ refs = cc in sym same ∙ sym (append-nil before)), tt)
  push_refs_sound (r ∷ rs) before refs h = elim (Option-cases (k.meta r).name) [
    | inl absent ↦ absurd (err_ok (rw absent at h))
    | inr (name, present) ↦
        let ref = within_opt (new name) (k.meta r).namespace in
        let (more, e, all) = push_refs_sound rs (before ++ ref ∷ []) refs (rw present at h) in
        (ref ∷ more, e ∙ append_assoc before _ more, (within_opt-Names r name present, all))
  ]

  same_ref :
      (r : T) (ref : ObjectRef)
      → (k.meta r).namespace ≡ ref.namespace
      → within_opt (new ref.name) (k.meta r).namespace ≡ ref
  same_ref r ref ns =
      within_opt_eq ref.name (k.meta r).namespace
      ∙ ap (λ x. record { name = ref.name; namespace = x }) ns

  push_refs_complete :
      (rs : List T) (before more : List ObjectRef)
      → NamesAll rs more
      → push_refs k rs before ≡ ok (before ++ more)
  unfolding push_refs
  push_refs_complete [] before [] all = ap ok (sym (append-nil before))
  push_refs_complete [] before (ref ∷ more) all = absurd all
  push_refs_complete (r ∷ rs) before [] all = absurd all
  push_refs_complete (r ∷ rs) before (ref ∷ more) ((n, ns), all) =
      rw (n, same_ref r ref ns)
        (push_refs_complete rs (before ++ ref ∷ []) more all
          ∙ ap ok (append_assoc before (ref ∷ []) more))

  -- When the listing succeeds, `make_object_refs` returns some references exactly when they name
  -- the listed resources one by one, in order and with their namespaces; so it fails when one has
  -- no name.
  pub make_object_refs_iff :
      {W : Type 0} (server : ApiServer W T) (scope : Scope) (w : W) (items : List T)
      (refs : List ObjectRef)
      → (server.list (into_api scope) none w).0 ≡ ok items
      → ((make_object_refs k server scope w).0 ≡ ok refs) ↔ NamesAll items refs
  unfolding make_object_refs
  make_object_refs_iff server scope w items refs listed = rw listed (
    λ h.
        let (more, e, all) = push_refs_sound items [] refs h in
        subst (λ l. NamesAll items l) (sym e) all,
    λ all. push_refs_complete items [] refs all,
  )
