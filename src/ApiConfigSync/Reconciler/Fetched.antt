-- ===== src/ApiConfigSync/Reconciler/Fetched.antt =====
-- examples/apiconfigsync/src/reconciler.rs: the request that a reconcile fetches its body with.
use Prim.Native.String
use koprs.Prelude.{◌≡◌, refl, ◌*◌, String, Option, false, none, some, List, [], ◌∷◌, ok}
use koprs.Kube.{name_any}
use koprs.Finalizers.{add_finalizer_namespaced}
use koprs.External.Http.{HttpPoller}
use koprs.Operators.{format, Client, SyncStatus}
use koprs.Operators.Leaks.{namespace_of}
use koprs.Operators.ConfigMapSync.{ConfigMap}
use koprs.ApiConfigSync.Types.{ApiConfigSync, sync_kind}
use koprs.ApiConfigSync.Fetch.{Outside, optional_token, fetch, build_poller}
use koprs.ApiConfigSync.Reconciler.{finalizer}

-- The header that carries a token.
abbrev authorization : Option String → List (String × String)
authorization none = []
authorization (some token) = ("authorization", String.◌++◌ "Bearer " token) ∷ []

-- A poller of the resource's URL that has seen nothing, with the token, for bodies up to a mebibyte.
abbrev pub poller_of : ApiConfigSync → Option String → HttpPoller
poller_of cr token = record {
  url = cr.spec.api_url;
  name =
      format
        ("apiconfigsync/" ∷ namespace_of cr.metadata.namespace ∷ "/" ∷ name_any cr.metadata ∷ []);
  extra_headers = authorization token;
  last_etag = none;
  last_modified_value = none;
  seen = false;
  max_body_bytes = some (1024 * 1024);
}

pub build_poller_lem :
    (cr : ApiConfigSync) (token : Option String)
    → build_poller cr.spec.api_url token (namespace_of cr.metadata.namespace) (name_any cr.metadata)
      ≡ poller_of cr token
unfolding build_poller
build_poller_lem cr none = refl
build_poller_lem cr (some token) = refl

-- A reconcile from `w` fetched this body: it asked for the resource's URL in the environment that its
-- patch of the finalizer and then its read of the token left, with that token.
pub record Fetched {W : Type 0} (client : Client W ApiConfigSync ConfigMap SyncStatus)
    (outside : Outside W) (cr : ApiConfigSync) (w : W) (body : String) : Type 0 where
  pub added : ApiConfigSync
  pub marked : W
  pub token : Option String
  pub before : W
  pub adds :
      add_finalizer_namespaced sync_kind client.patch_finalizers cr finalizer w ≡ (ok added, marked)
  pub reads :
      optional_token outside
        (namespace_of cr.metadata.namespace)
        cr.spec.bearer_token_secret_ref
        marked
      ≡ (ok token, before)
  pub answers : (fetch outside (poller_of cr token) before).0 ≡ ok body
