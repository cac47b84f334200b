-- ===== src/ApiConfigSync/Types.antt =====
-- examples/apiconfigsync/src/types.rs: the custom resource `ApiConfigSync`.
use koprs.Prelude.{String, Option}
use koprs.Kube.{ObjectMeta, KubeResource}
use koprs.Operators.{SyncStatus}

pub record SecretKeyRef : Type 0 where
  pub name : String
  pub key : String

unfoldable pub default_token_key : String
default_token_key = "token"

unfoldable pub default_config_key : String
default_config_key = "config"

pub record ApiConfigSyncSpec : Type 0 where
  pub target_namespace : String
  pub api_url : String
  pub bearer_token_secret_ref : Option SecretKeyRef
  pub config_key : String

pub record ApiConfigSync : Type 0 where
  pub metadata : ObjectMeta
  pub spec : ApiConfigSyncSpec
  pub status : Option SyncStatus

abbrev pub sync_kind : KubeResource ApiConfigSync
sync_kind = record {
  api_version = "example.io/v1alpha1";
  kind = "ApiConfigSync";
  meta = λ r. r.metadata;
  set_meta = λ r m. record r { metadata = m };
}
