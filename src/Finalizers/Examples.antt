-- ===== src/Finalizers/Examples.antt =====
-- crates/koprs/src/finalizers.rs: the patches on a server that runs them as RFC 6902 says.
use koprs.Prelude.{
  ℕ, ◌≡◌, ◌≢◌, refl, String, Bool, true, false, Option, none, some, List, [], ◌∷◌, ◌++◌, is_some,
  opt_str_eq, if◌then◌else◌, Result, ok, Bool-cases, inl, inr,
}
use koprs.Error.{KubeError}
use koprs.Kube.{ObjectMeta, default_meta, KubeResource, Target}
use koprs.Scope.{cluster}
use koprs.Finalizers.{
  Operation, test, add, remove, field, end, entry, null_value, strings, string, Patch, json,
  add_finalizer_patch, remove_finalizer_patch, add_finalizer,
}
use koprs.Finalizers.Patches.{
  get_elem?, erase_at, list_eq, stored, JsonPatch, apply-add_finalizer_patch,
  apply-remove_finalizer_patch,
}

abbrev Live : Type 0
Live = Option (List String)

abbrev list_of : Live → List String
list_of none = []
list_of (some l) = l

abbrev run_one : Operation → Live → Option Live
run_one (test field null_value) none = some none
run_one (test field null_value) (some l) = none
run_one (test field (strings v)) none = none
run_one (test field (strings v)) (some l) = if list_eq l v then some (some l) else none
run_one (test (entry i) (string f)) l =
    if opt_str_eq (get_elem? (list_of l) i) (some f) then some l else none
run_one (add field (strings v)) l = some (some v)
run_one (add end (string v)) none = none
run_one (add end (string v)) (some l) = some (some (l ++ v ∷ []))
run_one (remove (entry i)) none = none
run_one (remove (entry i)) (some l) =
    if is_some (get_elem? l i) then some (some (erase_at l i)) else none
run_one _ _ = none

abbrev run_ops : List Operation → Live → Option Live
run_ops [] l = some l
run_ops (o ∷ ops) l = elim (run_one o l) [ none ↦ none | some l' ↦ run_ops ops l' ]

run-test_null :
    (ops : List Operation) (l : List String)
    → run_ops (test field null_value ∷ ops) (stored l)
      ≡ (if list_eq l [] then run_ops ops (stored l) else none)
run-test_null ops [] = refl
run-test_null ops (x ∷ xs) = refl

-- A test that leaves the object as it is.
run_if :
    (b : Bool) (ops : List Operation) (l : Live)
    → ◌≡◌ {A = Option Live}
        (elim (if b then some l else none) [ none ↦ none | some l' ↦ run_ops ops l' ])
        (if b then run_ops ops l else none)
run_if true ops l = refl
run_if false ops l = refl

run-test_list :
    (ops : List Operation) (f : String) (fs l : List String)
    → run_ops (test field (strings (f ∷ fs)) ∷ ops) (stored l)
      ≡ (if list_eq l (f ∷ fs) then run_ops ops (stored l) else none)
run-test_list ops f fs [] = refl
run-test_list ops f fs (x ∷ xs) = run_if (list_eq (x ∷ xs) (f ∷ fs)) ops (some (x ∷ xs))

run-test_entry :
    (ops : List Operation) (i : ℕ) (f : String) (l : List String)
    → run_ops (test (entry i) (string f) ∷ ops) (stored l)
      ≡ (if opt_str_eq (get_elem? l i) (some f) then run_ops ops (stored l) else none)
run-test_entry ops i f [] = refl
run-test_entry ops i f (x ∷ xs) = elim (Bool-cases (opt_str_eq (get_elem? (x ∷ xs) i) (some f))) [
  | inl same ↦ rw same
  | inr other ↦ rw other
]

server : JsonPatch
server = record {
  apply = run_ops;
  apply_nil = λ l. refl;
  test_null = run-test_null;
  test_list = run-test_list;
  test_entry = run-test_entry;
  add_field = λ ops new l. refl;
  add_end = λ ops new l. refl;
  remove_entry = λ ops i f l h. rw (h, run_ops);
}

-- What `add_finalizer` sends: the target, the name and the patch, which this server only records.
abbrev resource : KubeResource ObjectMeta
resource = record { api_version = "v1"; kind = "ConfigMap"; meta = λ m. m; set_meta = λ r m. m }

abbrev record_patch :
    Target → String → Patch → List Patch → Result KubeError ObjectMeta × List Patch
record_patch t name p w = (ok default_meta, p ∷ w)

sends_patch :
    add_finalizer resource record_patch cluster (record default_meta { name = some "a" }) "f" []
    ≡ (ok default_meta, json (add_finalizer_patch [] "f") ∷ [])
unfolding add_finalizer
sends_patch = refl

apply-add_finalizer_patch_example :
    server.apply (add_finalizer_patch ("f" ∷ []) "g") (stored ("f" ∷ []))
    ≡ (if list_eq ("f" ∷ []) ("f" ∷ []) then some (some ("f" ∷ "g" ∷ [])) else none)
apply-add_finalizer_patch_example = apply-add_finalizer_patch server ("f" ∷ []) ("f" ∷ []) "g"

apply-remove_finalizer_patch_example :
    let live : List String = "f" ∷ "g" ∷ [] in
    let result = server.apply (remove_finalizer_patch 1 "g") (stored live) in
    (get_elem? live 1 ≢ some "g" → result ≡ none)
    × (get_elem? live 1 ≡ some "g"
        → (before rest : List String) × (live ≡ before ++ "g" ∷ rest)
          × (result ≡ some (some (before ++ rest))))
apply-remove_finalizer_patch_example = apply-remove_finalizer_patch server 1 ("f" ∷ "g" ∷ []) "g"
