-- ===== src/Owners/Mappers.antt =====
-- crates/koprs/src/owners.rs: when the label mappers find an owner.
use koprs.Prelude.{
  ◌≡◌, ◌≢◌, ◌↔◌, ◌⊎◌, String, Option, none, some, arith, eq_iff, if◌then◌else◌, is_empty,
}
use koprs.Prelude.Maps.{get}
use koprs.Kube.{KubeResource}
use koprs.Owners.{
  new, within, labels_of, non_empty, or_else, and_then, owner_label_mapper, owner_labels_mapper,
}

-- The namespace label decides, and the resource's own namespace where there is no such label.
abbrev pub Placed : Option String → Option String → String → Type 0
Placed label own ns =
    ((label ≡ some ns) × (ns ≢ "")) ⊎ (((label ≡ none) ⊎ (label ≡ some "")) × (own ≡ some ns))

single_iff :
    (label own : Option String) (name ns : String)
    → (and_then label (λ owner.
          and_then own (λ n. if is_empty owner then none else some (within (new owner) n)))
        ≡ some (within (new name) ns))
      ↔ ((label ≡ some name) × (name ≢ "") × (own ≡ some ns))
single_iff none own name ns = ground arith
single_iff (some l) none name ns = ground arith
single_iff (some l) (some o) name ns = ground (arith, eq_iff l "", eq_iff name "")

or_else-Placed :
    (label own : Option String) (ns : String)
    → (or_else (non_empty label) own ≡ some ns) ↔ Placed label own ns
or_else-Placed none own ns = ground arith
or_else-Placed (some l) own ns = ground (arith, eq_iff l "", eq_iff ns "")

named_iff :
    (label place : Option String) (name ns : String)
    → (and_then (non_empty label) (λ owner. and_then place (λ n. some (within (new owner) n)))
        ≡ some (within (new name) ns))
      ↔ ((label ≡ some name) × (name ≢ "") × (place ≡ some ns))
named_iff none place name ns = ground arith
named_iff (some l) none name ns = ground (arith, eq_iff l "", eq_iff name "")
named_iff (some l) (some p) name ns = ground (arith, eq_iff l "", eq_iff name "")

module _ {T : Type 0} (k : KubeResource T) where
  -- `owner_label_mapper` points to an owner exactly when the label is there and not empty and the
  -- resource has a namespace: to the label's value, in that namespace.
  owner_label_mapper_iff :
      (label : String) (r : T) (name ns : String)
      → (owner_label_mapper k label r ≡ some (within (new name) ns)) ↔ (
          (get label (labels_of (k.meta r)) ≡ some name)
          × (name ≢ "")
          × ((k.meta r).namespace ≡ some ns))
  unfolding owner_label_mapper
  owner_label_mapper_iff label r name ns =
      single_iff (get label (labels_of (k.meta r))) (k.meta r).namespace name ns

  -- `owner_labels_mapper` points to an owner exactly when the name label is there and not empty, and
  -- the namespace is that of a namespace label that is not empty, or else the resource's own.
  pub owner_labels_mapper_iff :
      (name_label namespace_label : String) (r : T) (name ns : String)
      → (owner_labels_mapper k name_label namespace_label r ≡ some (within (new name) ns)) ↔ (
          (get name_label (labels_of (k.meta r)) ≡ some name)
          × (name ≢ "")
          × Placed (get namespace_label (labels_of (k.meta r))) (k.meta r).namespace ns)
  unfolding owner_labels_mapper
  owner_labels_mapper_iff name_label namespace_label r name ns =
      let label = get name_label (labels_of (k.meta r)) in
      let place = get namespace_label (labels_of (k.meta r)) in
      let own = (k.meta r).namespace in
      let (to, from) = named_iff label (or_else (non_empty place) own) name ns in
      let (to', from') = or_else-Placed place own ns in
      (λ h. let (a, b, c) = to h in (a, b, to' c), λ (a, b, c). from (a, b, from' c))
