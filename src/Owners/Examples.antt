-- ===== src/Owners/Examples.antt =====
-- crates/koprs/src/owners.rs: concrete owners.
use koprs.Prelude.{◌≡◌, refl, some, [], ◌∷◌, ok, err}
use koprs.Error.{api, missing_metadata}
use koprs.Kube.{ObjectMeta, default_meta, KubeResource, ApiServer}
use koprs.Scope.{all_namespaces}
use koprs.Owners.{new, within, controller_ref, make_object_refs}

abbrev resource : KubeResource ObjectMeta
resource = record { api_version = "v1"; kind = "ConfigMap"; meta = λ m. m; set_meta = λ r m. m }

abbrev child : ObjectMeta
child = record default_meta {
  name = some "child";
  namespace = some "home";
  labels = some (("owner", "cr") ∷ ("owner-ns", "") ∷ []);
}

abbrev server : ApiServer (Unit {0}) ObjectMeta
server = record {
  list = λ t sel w. (ok (child ∷ []), w);
  get = λ t n w. (err (api 404), w);
  delete = λ t n p w. (ok tt, w);
  apply = λ t n r m w. (ok r, w);
}

no_uid : controller_ref resource child ≡ err (missing_metadata "uid")
unfolding controller_ref
no_uid = refl

referred :
    (make_object_refs resource server all_namespaces tt).0 ≡ ok (within (new "child") "home" ∷ [])
unfolding make_object_refs
referred = refl
