-- ===== src/ApiConfigSync/Reconciler/Placement.antt =====
-- examples/apiconfigsync/src/reconciler.rs: the ConfigMap after a reconcile, and what was fetched.
use koprs.Prelude.{◌≡◌, String, some, [], ◌∷◌}
use koprs.Kube.{default_meta, name_any}
use koprs.Operators.{format}
use koprs.Operators.Leads.{Leads}
use koprs.Operators.Leaks.{namespace_of}
use koprs.Operators.ConfigMapSync.{ConfigMap}
use koprs.ApiConfigSync.Types.{ApiConfigSync}
use koprs.ApiConfigSync.Reconciler.Fetched.{Fetched}

abbrev pub child_name : ApiConfigSync → String
child_name cr =
    format ("acs-" ∷ namespace_of cr.metadata.namespace ∷ "-" ∷ name_any cr.metadata ∷ [])

-- The ConfigMap of a resource and a fetched body.
abbrev pub described : ApiConfigSync → String → ConfigMap
described cr body = record {
  metadata = record default_meta {
    name = some (child_name cr);
    namespace = some cr.spec.target_namespace;
    labels = some (
        ("app.kubernetes.io/managed-by", "apiconfigsync-operator")
        ∷ ("apiconfigsync.example.io/owner", name_any cr.metadata)
        ∷ ("apiconfigsync.example.io/owner-namespace", namespace_of cr.metadata.namespace)
        ∷ []);
  };
  data_ = some ((cr.spec.config_key, body) ∷ []);
}

abbrev At : {W : Type 0} → W → W → Type 0
At w v = v ≡ w
