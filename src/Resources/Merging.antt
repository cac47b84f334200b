-- ===== src/Resources/Merging.antt =====
-- crates/koprs/src/resources.rs: what the metadata patches do to an object whose server merges them.
use koprs.Prelude.{
  ◌≡◌, refl, ap, ◌∙◌, String, Bool, true, false, Option, none, some, List, [], ◌∷◌, str_eq, any,
  ◌||◌, if◌then◌else◌, Result, ok, err, map_err,
}
use koprs.Prelude.Maps.{get, insert, get-insert}
use koprs.Prelude.Tasks.{Task}
use koprs.Error.{KubeError, kube}
use koprs.Kube.{Target}
use koprs.Scope.{Scope, into_api}
use koprs.Meta.Built.{last_value}
use koprs.Resources.Metadata.{
  MetadataField, labels, Entries, MetadataPatch, set_entries, null_entries, patch_labels,
  remove_labels,
}

abbrev pub merged_value : Option (Option String) → Option String → Option String
merged_value none old = old
merged_value (some new) old = new

-- The labels and the annotations of the object in an environment, and what RFC 7386 says of a merge
-- patch that an API server accepts: an entry with a value sets its key, one with null removes it,
-- and nothing else changes.
pub record MergeServer (W T : Type 0) : Type 0 where
  pub send : Target → String → MetadataPatch → Task W KubeError T
  pub values : MetadataField → W → List (String × String)
  pub merged :
      (t : Target) (name key : String) (p : MetadataPatch) (w : W) (r : T)
      → (send t name p w).0 ≡ ok r
      → get key (values p.target (send t name p w).1)
        ≡ merged_value (get key p.entries) (get key (values p.target w))

if_merged :
    (b : Bool) (new : Option String) (e : Option (Option String)) (old : Option String)
    → merged_value (if b then some new else e) old ≡ (if b then new else merged_value e old)
if_merged true new e old = refl
if_merged false new e old = refl

merged_insert :
    (key k : String) (new : Option String) (entries : Entries) (old : Option String)
    → merged_value (get key (insert k new entries)) old
      ≡ (if str_eq k key then new else merged_value (get key entries) old)
merged_insert key k new entries old =
    ap (λ e. merged_value e old) (get-insert key k new entries)
    ∙ if_merged (str_eq k key) new (get key entries) old

set_value :
    (key : String) (pairs : List (String × String)) (entries : Entries) (old : Option String)
    → merged_value (get key (set_entries pairs entries)) old
      ≡ last_value key pairs (merged_value (get key entries) old)
unfolding set_entries last_value
set_value key [] entries old = refl
set_value key ((k, v) ∷ pairs) entries old =
    set_value key pairs (insert k (some v) entries) old
    ∙ ap (last_value key pairs) (merged_insert key k (some v) entries old)

or_none :
    (b c : Bool) (old : Option String)
    → (if c then none else if b then none else old) ≡ (if b || c then none else old)
or_none true true old = refl
or_none true false old = refl
or_none false true old = refl
or_none false false old = refl

null_value :
    (key : String) (keys : List String) (entries : Entries) (old : Option String)
    → merged_value (get key (null_entries keys entries)) old
      ≡ (if any (λ k. str_eq k key) keys then none else merged_value (get key entries) old)
unfolding null_entries
null_value key [] entries old = refl
null_value key (k ∷ keys) entries old =
    null_value key keys (insert k none entries) old
    ∙ ap (λ o. if any (λ j. str_eq j key) keys then none else o)
        (merged_insert key k none entries old)
    ∙ or_none (str_eq k key) (any (λ j. str_eq j key) keys) _

accepted : {A : Type 0} (x : Result KubeError A) (r : A) → map_err kube x ≡ ok r → x ≡ ok r
accepted (ok a) r h = cc
accepted (err e) r h = cc

module _ {W T : Type 0} (server : MergeServer W T) where
  -- A call of `patch_labels` that succeeds leaves under each key the last value that the pairs give
  -- to it, and under every other key what was there.
  pub patch_labels-values :
      (scope : Scope) (name key : String) (pairs : List (String × String)) (w : W) (r : T)
      → (patch_labels server.send scope name pairs w).0 ≡ ok r
      → get key (server.values labels (patch_labels server.send scope name pairs w).1)
        ≡ last_value key pairs (get key (server.values labels w))
  unfolding patch_labels get
  patch_labels-values scope name key pairs w r h =
      server.merged (into_api scope) name key
        (record { target = labels; entries = set_entries pairs [] }) w r (accepted _ r h)
      ∙ set_value key pairs [] (get key (server.values labels w))

  -- A call of `remove_labels` that succeeds removes the given keys and no other.
  pub remove_labels-values :
      (scope : Scope) (name key : String) (keys : List String) (w : W) (r : T)
      → (remove_labels server.send scope name keys w).0 ≡ ok r
      → get key (server.values labels (remove_labels server.send scope name keys w).1)
        ≡ (if any (λ k. str_eq k key) keys then none else get key (server.values labels w))
  unfolding remove_labels get
  remove_labels-values scope name key keys w r h =
      server.merged (into_api scope) name key
        (record { target = labels; entries = null_entries keys [] }) w r (accepted _ r h)
      ∙ null_value key keys [] (get key (server.values labels w))
