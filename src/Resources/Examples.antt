-- ===== src/Resources/Examples.antt =====
-- crates/koprs/src/resources.rs: calls on a small server. The environment is the stored object.
use koprs.Prelude.{
  ℕ, ◌≡◌, ◌≢◌, ◌↔◌, refl, Bool, true, false, Option, none, some, List, [], ◌∷◌, Result, ok, err,
  is_some,
}
use koprs.Error.{KubeError, api}
use koprs.Kube.{ObjectMeta, default_meta, KubeResource, ApiServer}
use koprs.Scope.{cluster, into_api}
use koprs.Resources.{
  created, unchanged, into_resource, was_changed, ensure_resource, wait_for_condition,
}
use koprs.Resources.Outcomes.{version_answered, ensure_resource_reports}
use koprs.Resources.Waiting.{Polls, IsPause, wait_for_condition-returns}

abbrev resource : KubeResource ObjectMeta
resource = record { api_version = "v1"; kind = "ConfigMap"; meta = λ m. m; set_meta = λ r m. m }

abbrev version : ℕ → ObjectMeta
version v = record default_meta { name = some "a"; resource_version = some v }

abbrev answer : Option ObjectMeta → Result KubeError ObjectMeta
answer none = err (api 404)
answer (some m) = ok m

abbrev listed : Option ObjectMeta → List ObjectMeta
listed none = []
listed (some m) = m ∷ []

-- An apply of an object that is there changes nothing, and creates version 1 otherwise.
abbrev applied : Option ObjectMeta → ObjectMeta
applied none = version 1
applied (some m) = m

abbrev server : ApiServer (Option ObjectMeta) ObjectMeta
server = record {
  list = λ t sel w. (ok (listed w), w);
  get = λ t n w. (answer w, w);
  delete = λ t n p w. (ok tt, none);
  apply = λ t n r m w. (ok (applied w), some (applied w));
}

ensured :
    ensure_resource resource server cluster (version 0) "manager" (some (version 4))
    ≡ (ok (unchanged (version 4)), some (version 4))
unfolding ensure_resource
ensured = refl

ensured_new :
    ensure_resource resource server cluster (version 0) "manager" none
    ≡ (ok (created (version 1)), some (version 1))
unfolding ensure_resource
ensured_new = refl

ensure_resource_reports_example :
    let got = server.get (into_api cluster) "a" (some (version 4)) in
    ((server.apply (into_api cluster) "a" (version 0) "manager" got.1)
      ≡ (ok (into_resource (unchanged (version 4))), some (version 4)))
    × ((was_changed (unchanged (version 4)) ≡ false) ↔ (
        (v : ℕ) × (version_answered resource server got.0 ≡ some v)
        × ((into_resource (unchanged (version 4))).resource_version ≡ some v)))
ensure_resource_reports_example =
    ensure_resource_reports resource server cluster (version 0) "a" "manager" (some (version 4))
      (some (version 4)) (unchanged (version 4)) refl ensured

-- Somebody else makes the object between two polls.
abbrev idle : Option ObjectMeta → Option ObjectMeta
idle w = w

abbrev makes : Option ObjectMeta → Option ObjectMeta
makes w = some (version 3)

abbrev versioned : ObjectMeta → Bool
versioned m = is_some m.resource_version

wait_for_condition-returns_example :
    Polls
      (λ r. versioned r ≡ true)
      (IsPause 5)
      (wait_for_condition resource server cluster "a" 5 versioned (idle ∷ makes ∷ []) none)
    × ((wait_for_condition resource server cluster "a" 5 versioned (idle ∷ makes ∷ []) none).0
        ≢ none)
wait_for_condition-returns_example =
    wait_for_condition-returns resource server cluster "a" 5 versioned (idle ∷ []) [] makes none
      (λ v. (version 3, refl, refl))
