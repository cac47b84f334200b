-- ===== src/ApiConfigSync/Examples.antt =====
-- examples/apiconfigsync/src: concrete addresses, hosts, URLs, requests and reconciles.
use koprs.Prelude.{
  ◌≡◌, ◌↔◌, refl, not, String, true, false, none, some, [], ◌∷◌, any, Result, ok, err, arith,
}
use koprs.Prelude.Texts.{Text, codes}
use koprs.Kube.{default_meta, is_being_deleted, name_any}
use koprs.Admission.Review.{AdmissionRequest, create}
use koprs.Operators.{Client, SyncStatus}
use koprs.Operators.Leads.{Leads}
use koprs.Operators.Laws.{Safe, Before}
use koprs.Operators.Leaks.{namespace_of, Settled}
use koprs.Operators.Model.{Server, client_of, Held, Gone, holds_of, goes_of}
use koprs.Operators.ConfigMapSync.{ConfigMap}
use koprs.ApiConfigSync.Addresses.{Ipv4Addr, IpAddr, is_public_v4}
use koprs.ApiConfigSync.Addresses.Blocks.{
  address, within, special_blocks, is_public_v4-special_blocks,
}
use koprs.ApiConfigSync.Hosts.{strip_wildcard, host_matches}
use koprs.ApiConfigSync.Hosts.Patterns.{Means, host_matches_iff}
use koprs.ApiConfigSync.Policy.{domain, Url, UrlPolicy, check}
use koprs.ApiConfigSync.Policy.Checked.{Admits, check_iff}
use koprs.ApiConfigSync.Types.{ApiConfigSync, sync_kind}
use koprs.ApiConfigSync.Validator.{validate}
use koprs.ApiConfigSync.Validator.Accepted.{Acceptable, validate_allowed_iff}
use koprs.ApiConfigSync.Fetch.{Outside}
use koprs.ApiConfigSync.Reconciler.{finalizer, configmap_name, reconcile}
use koprs.ApiConfigSync.Reconciler.Leaks.{Apart, Allowed, reconcile_settles}

-- The address of the metadata service of a cloud.
abbrev metadata_service : Ipv4Addr
metadata_service = record { o0 = 169; o1 = 254; o2 = 169; o3 = 254 }

is_public_v4-special_blocks_example :
    is_public_v4 metadata_service ≡ not (any (within (address metadata_service)) special_blocks)
is_public_v4-special_blocks_example =
    is_public_v4-special_blocks metadata_service
      (omega arith, omega arith, omega arith, omega arith)

host_matches_iff_example :
    (host_matches (codes "*.example.com") (codes "api.example.com") ≡ true)
    ↔ Means
        (strip_wildcard (codes "*.example.com"))
        (codes "*.example.com")
        (codes "api.example.com")
host_matches_iff_example = host_matches_iff (codes "*.example.com") (codes "api.example.com")

-- A parser that reads every text as one URL.
abbrev api : Url
api = record {
  scheme = "https";
  username = "";
  password = none;
  host = some (domain (codes "API.example.com"));
}

abbrev parse : String → Result String Url
parse s = ok api

abbrev show_ip : IpAddr → Text
show_ip ip = []

abbrev policy : UrlPolicy
policy = record {
  allowed_hosts = codes "*.example.com" ∷ [];
  allow_http = false;
  allow_private_networks = false;
}

check_iff_example :
    (check parse show_ip policy "https://API.example.com/v1" ≡ ok api)
    ↔ Admits parse show_ip policy "https://API.example.com/v1" api
check_iff_example = check_iff parse show_ip policy "https://API.example.com/v1" api

check_run : check parse show_ip policy "https://API.example.com/v1" ≡ ok api
unfolding check
check_run = refl

abbrev sync : ApiConfigSync
sync = record {
  metadata = record default_meta { name = some "flags"; namespace = some "team" };
  spec = record {
    target_namespace = "apps";
    api_url = "https://API.example.com/v1";
    bearer_token_secret_ref = some (record { name = "credentials"; key = "token" });
    config_key = "config";
  };
  status = none;
}

abbrev request : AdmissionRequest ApiConfigSync
request = record {
  uid = "u-1";
  kind = record { group = "example.io"; version = "v1alpha1"; kind = "ApiConfigSync" };
  resource = record { group = "example.io"; version = "v1alpha1"; resource = "apiconfigsyncs" };
  sub_resource = none;
  request_kind = none;
  request_resource = none;
  request_sub_resource = none;
  user_info = record { username = "dev"; uid = "u-2"; groups = []; extra = [] };
  name = "flags";
  namespace = some "team";
  operation = create;
  object = some sync;
  old_object = none;
  dry_run = false;
}

validate_allowed_iff_example :
    ((validate parse show_ip policy request).allowed ≡ true)
    ↔ Acceptable parse show_ip policy request.object
validate_allowed_iff_example = validate_allowed_iff parse show_ip policy request

validate_run : (validate parse show_ip policy request).allowed ≡ true
unfolding validate check
validate_run = refl

abbrev client : Client Server ApiConfigSync ConfigMap SyncStatus
client = client_of sync

-- Every request of the poller is answered with an empty document.
abbrev outside : Outside Server
outside = record {
  secrets = record {
    list = λ t s w. (ok [], w);
    get = λ t n w. (
      ok (record {
        metadata = default_meta;
        data_ = some (("token", []) ∷ []);
        type_ = none;
        string_data = none;
      }),
      w,
    );
    delete = λ t n p w. (ok tt, w);
    apply = λ t n r m w. (ok r, w);
  };
  exchange = λ w. ((λ r. err "connection refused"), w);
  parse_header_name = ok;
  parse_header_value = ok;
  from_utf8 = λ b. some "secret";
  from_utf8_lossy = λ b. "";
  parse_url = parse;
  show_ip = show_ip;
}

abbrev apart : Apart outside Held
apart = record { secret_keeps = λ t n. record { across = λ w h. h }; exchange_keeps = λ w h. h }

abbrev child_name : String
child_name = configmap_name (namespace_of sync.metadata.namespace) (name_any sync.metadata)

reconcile_settles_example :
    Leads
      (Before client finalizer Held Gone sync_kind sync)
      (Settled (is_being_deleted sync_kind sync) (λ w. Held w × Allowed outside policy sync) Gone)
      (Safe Held Gone)
      (reconcile client outside policy sync)
reconcile_settles_example =
    reconcile_settles client (holds_of sync finalizer) outside policy apart sync
      (goes_of sync "apps" child_name)
