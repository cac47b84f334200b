-- ===== src/Resources/Patched.antt =====
-- crates/koprs/src/resources.rs: metadata patches on a server that merges as RFC 7386 says. The
-- environment is the labels and the annotations.
use koprs.Prelude.{
  ◌≡◌, refl, ap, ◌∙◌, String, Bool, true, false, Option, none, some, List, [], ◌∷◌, str_eq,
  if◌then◌else◌, eq_iff, arith, ok,
}
use koprs.Prelude.Maps.{get, insert, get-insert}
use koprs.Resources.Metadata.{MetadataField, labels, annotations, Entries}
use koprs.Resources.Merging.{merged_value, MergeServer}

abbrev Map : Type 0
Map = List (String × String)

erase : String → Map → Map
erase k [] = []
erase k ((j, v) ∷ m) = if str_eq j k then erase k m else (j, v) ∷ erase k m

get-erase :
    (key k : String) (m : Map) → get key (erase k m) ≡ (if str_eq k key then none else get key m)
unfolding get erase
get-erase key k [] = nothing (str_eq k key)
  where
    nothing : (b : Bool) → ◌≡◌ {A = Option String} none (if b then none else none)
    nothing true = refl
    nothing false = refl
get-erase key k ((j, v) ∷ m) =
    ground (arith, get-erase key k m, eq_iff j k, eq_iff j key, eq_iff k key)

abbrev put : String → Option String → Map → Map
put k none m = erase k m
put k (some v) m = insert k v m

get-put :
    (key k : String) (new : Option String) (m : Map)
    → get key (put k new m) ≡ (if str_eq k key then new else get key m)
get-put key k none m = get-erase key k m
get-put key k (some v) m = get-insert key k v m

abbrev merge : Entries → Map → Map
merge [] m = m
merge ((k, new) ∷ entries) m = put k new (merge entries m)

if_value :
    (b : Bool) (new : Option String) (e : Option (Option String)) (old : Option String)
    → (if b then new else merged_value e old) ≡ merged_value (if b then some new else e) old
if_value true new e old = refl
if_value false new e old = refl

get-merge :
    (key : String) (entries : Entries) (m : Map)
    → get key (merge entries m) ≡ merged_value (get key entries) (get key m)
unfolding get
get-merge key [] m = refl
get-merge key ((k, new) ∷ entries) m =
    get-put key k new (merge entries m)
    ∙ ap (λ o. if str_eq k key then new else o) (get-merge key entries m)
    ∙ if_value (str_eq k key) new (get key entries) (get key m)

abbrev values_in : MetadataField → Map × Map → Map
values_in labels w = w.0
values_in annotations w = w.1

abbrev merge_in : MetadataField → Entries → Map × Map → Map × Map
merge_in labels entries (l, a) = (merge entries l, a)
merge_in annotations entries (l, a) = (l, merge entries a)

merged_in :
    (f : MetadataField) (entries : Entries) (key : String) (w : Map × Map)
    → get key (values_in f (merge_in f entries w))
      ≡ merged_value (get key entries) (get key (values_in f w))
merged_in labels entries key (l, a) = get-merge key entries l
merged_in annotations entries key (l, a) = get-merge key entries a

abbrev server : MergeServer (Map × Map) (Unit {0})
server = record {
  send = λ t name p w. (ok tt, merge_in p.target p.entries w);
  values = values_in;
  merged = λ t name key p w r h. merged_in p.target p.entries key w;
}
