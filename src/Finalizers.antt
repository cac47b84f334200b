-- ===== src/Finalizers.antt =====
-- crates/koprs/src/finalizers.rs: adding and removing finalizers. The JSON Patch is a list of
-- operations on `/metadata/finalizers`; the server that applies it is a parameter.
pub mod Patches
pub mod Examples
use mathlib.Core.Option
use koprs.Prelude.{
  ℕ, suc, zero, String, Bool, true, false, Option, none, some, List, [], ◌∷◌, str_eq, any, null,
  if◌then◌else◌, Result, ok, err, ok_or, map_err,
}
use koprs.Prelude.Tasks.{Task, ◌>>=◌, done}
use koprs.Error.{KubeError, KubeGenericError, kube, missing_metadata}
use koprs.Kube.{KubeResource, Target}
use koprs.Scope.{Scope, in_namespace, into_api}

-- `/metadata/finalizers`, `/metadata/finalizers/-` and `/metadata/finalizers/{index}`.
pub data Pointer : Type 0 where
  field : Pointer
  end : Pointer
  entry : ℕ → Pointer

pub data Value : Type 0 where
  null_value : Value
  strings : List String → Value
  string : String → Value

pub data Operation : Type 0 where
  test : Pointer → Value → Operation
  add : Pointer → Value → Operation
  remove : Pointer → Operation

unfoldable pub add_finalizer_patch : List String → String → List Operation
add_finalizer_patch [] finalizer = test field null_value ∷ add field (strings (finalizer ∷ [])) ∷ []
add_finalizer_patch (f ∷ fs) finalizer =
    test field (strings (f ∷ fs)) ∷ add end (string finalizer) ∷ []

unfoldable pub remove_finalizer_patch : ℕ → String → List Operation
remove_finalizer_patch index finalizer =
    test (entry index) (string finalizer) ∷ remove (entry index) ∷ []

-- `iter().position(|f| f == finalizer)`.
unfoldable pub position : String → List String → Option ℕ
position finalizer [] = none
position finalizer (f ∷ fs) =
    if str_eq f finalizer then some 0 else Option.map suc (position finalizer fs)

abbrev pub unwrap_list : Option (List String) → List String
unwrap_list none = []
unwrap_list (some l) = l

-- The two kinds of patch that the module sends; `clear` is the merge patch that sets the finalizers
-- to null.
pub data Patch : Type 0 where
  json : List Operation → Patch
  clear : Patch

module _ {W T : Type 0} (k : KubeResource T)
    (send : Target → String → Patch → Task W KubeError T) where
  unfoldable pub required_name : T → Result KubeGenericError String
  required_name r = ok_or (k.meta r).name (missing_metadata "name")

  unfoldable pub required_namespace : T → Result KubeGenericError String
  required_namespace r = ok_or (k.meta r).namespace (missing_metadata "namespace")

  unfoldable pub current_finalizers : T → List String
  current_finalizers r = unwrap_list (k.meta r).finalizers

  -- `apply_json_patch`, and the merge patch of `remove_finalizers`.
  abbrev pub patched : Target → String → Patch → Task W KubeGenericError T
  patched target name p w = (map_err kube (send target name p w).0, (send target name p w).1)

  abbrev pub add_unless : Scope → T → String → String → Bool → Task W KubeGenericError T
  add_unless scope r finalizer name true = done (ok r)
  add_unless scope r finalizer name false =
      patched (into_api scope) name (json (add_finalizer_patch (current_finalizers r) finalizer))

  unfoldable pub add_finalizer : Scope → T → String → Task W KubeGenericError T
  unfolding required_name current_finalizers
  add_finalizer scope r finalizer = do
    name ← done (required_name r)
    add_unless scope r finalizer name (any (λ f. str_eq f finalizer) (current_finalizers r))

  abbrev pub remove_at : Scope → T → String → String → Option ℕ → Task W KubeGenericError T
  remove_at scope r finalizer name none = done (ok r)
  remove_at scope r finalizer name (some index) =
      patched (into_api scope) name (json (remove_finalizer_patch index finalizer))

  unfoldable pub remove_finalizer : Scope → T → String → Task W KubeGenericError T
  unfolding required_name current_finalizers
  remove_finalizer scope r finalizer = do
    name ← done (required_name r)
    remove_at scope r finalizer name (position finalizer (current_finalizers r))

  unfoldable pub remove_finalizers : Scope → String → Task W KubeGenericError T
  remove_finalizers scope name = patched (into_api scope) name clear

  unfoldable pub add_finalizer_namespaced : T → String → Task W KubeGenericError T
  unfolding add_finalizer required_namespace
  add_finalizer_namespaced r finalizer = do
    namespace ← done (required_namespace r)
    add_finalizer (in_namespace namespace) r finalizer

  unfoldable pub remove_finalizer_namespaced : T → String → Task W KubeGenericError T
  unfolding remove_finalizer required_namespace
  remove_finalizer_namespaced r finalizer = do
    namespace ← done (required_namespace r)
    remove_finalizer (in_namespace namespace) r finalizer
