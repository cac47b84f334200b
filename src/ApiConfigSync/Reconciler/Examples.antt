-- ===== src/ApiConfigSync/Reconciler/Examples.antt =====
-- examples/apiconfigsync/src/reconciler.rs: a reconcile whose endpoint answers with a document.
use koprs.Prelude.{◌≡◌, refl, Option, false, none, some, [], ◌∷◌, ok, err}
use koprs.Prelude.Maps.{insert}
use koprs.Prelude.Tasks.{◌>>=◌, done}
use koprs.Error.{config}
use koprs.Prelude.Texts.{codes}
use koprs.Kube.{default_meta, is_being_deleted}
use koprs.Finalizers.{add_finalizer_patch, add_finalizer_namespaced}
use koprs.Gc.{is_blank}
use koprs.Controller.Reconcile.{requeue}
use koprs.Operators.{Client, SyncStatus}
use koprs.Operators.Model.{stores}
use koprs.Operators.ConfigMapSync.{ConfigMap}
use koprs.ApiConfigSync.Policy.{domain, Url, UrlPolicy, check}
use koprs.ApiConfigSync.Types.{ApiConfigSync, sync_kind}
use koprs.ApiConfigSync.Fetch.{Outside}
use koprs.ApiConfigSync.Reconciler.{finalizer, reconcile}
use koprs.ApiConfigSync.Reconciler.Refusals.{reconcile-refused}
use koprs.ApiConfigSync.Reconciler.Fetched.{Fetched}
use koprs.ApiConfigSync.Reconciler.Placement.{child_name, described}

abbrev sync : ApiConfigSync
sync = record {
  metadata = record default_meta { name = some "flags"; namespace = some "team" };
  spec = record {
    target_namespace = "apps";
    api_url = "https://api.example.com/v1";
    bearer_token_secret_ref = none;
    config_key = "config";
  };
  status = none;
}

abbrev api : Url
api = record {
  scheme = "https";
  username = "";
  password = none;
  host = some (domain (codes "api.example.com"));
}

abbrev policy : UrlPolicy
policy = record { allowed_hosts = []; allow_http = false; allow_private_networks = false }

-- Every request is answered with one document.
abbrev outside : Outside (Option ConfigMap)
outside = record {
  secrets = record {
    list = λ t s w. (ok [], w);
    get = λ t n w. (
      ok (record { metadata = default_meta; data_ = none; type_ = none; string_data = none }),
      w,
    );
    delete = λ t n p w. (ok tt, w);
    apply = λ t n r m w. (ok r, w);
  };
  exchange = λ w. (
    (λ r. ok (record {
      status = 200;
      etag = none;
      last_modified = none;
      content_type = none;
      content_length = none;
      chunks = ok (codes "on") ∷ [];
    })),
    w,
  );
  parse_header_name = ok;
  parse_header_value = ok;
  from_utf8 = λ b. none;
  from_utf8_lossy = λ b. "on";
  parse_url = λ s. ok api;
  show_ip = λ ip. [];
}

abbrev client : Client (Option ConfigMap) ApiConfigSync ConfigMap SyncStatus
client = stores sync (child_name sync)

live : is_being_deleted sync_kind sync ≡ false
unfolding is_being_deleted
live = refl

placed_run :
    reconcile client outside policy sync none
    ≡ (ok (requeue 300000000000), some (described sync "on"))
unfolding reconcile is_blank add_finalizer_patch insert
placed_run = refl

-- The same resource where its URL is not read as one of `https`.
abbrev plain : Outside (Option ConfigMap)
plain = record outside { parse_url = λ s. ok (record api { scheme = "http" }) }

refused :
    check plain.parse_url plain.show_ip policy "https://api.example.com/v1"
    ≡ err "spec.apiUrl must use https://"
unfolding check
refused = refl

reconcile-refused_example :
    reconcile client plain policy sync none
    ≡ (do
      added ← add_finalizer_namespaced sync_kind client.patch_finalizers sync finalizer
      done (err (config "spec.apiUrl must use https://")))
        none
reconcile-refused_example =
    reconcile-refused client plain policy sync "spec.apiUrl must use https://" refused "team" none
      refl live
