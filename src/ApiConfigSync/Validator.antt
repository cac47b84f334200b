-- ===== src/ApiConfigSync/Validator.antt =====
-- examples/apiconfigsync/src/validator.rs: the validating webhook.
pub mod Accepted
use koprs.Prelude.{
  String, Bool, true, false, not, ◌||◌, Option, none, some, List, [], ◌∷◌, ◌++◌, null, is_empty,
  if◌then◌else◌, Result, ok, err,
}
use koprs.Prelude.Strings.{starts_with}
use koprs.Prelude.Texts.{Text}
use koprs.Admission.Review.{AdmissionRequest, ValidationResponse, allow, deny, allow_with_warnings}
use koprs.ApiConfigSync.Addresses.{IpAddr}
use koprs.ApiConfigSync.Policy.{Url, UrlPolicy, check}
use koprs.ApiConfigSync.Types.{SecretKeyRef, ApiConfigSyncSpec, ApiConfigSync}

abbrev pub ref_is_empty : Option SecretKeyRef → Bool
ref_is_empty none = false
ref_is_empty (some r) = is_empty r.name || is_empty r.key

abbrev pub url_warnings : ApiConfigSyncSpec → List String
url_warnings spec =
    if starts_with spec.api_url "http://"
    then ("spec.apiUrl uses plain HTTP; the bearer token and response are sent unencrypted" ∷ [])
    else []

abbrev pub token_warnings : Option SecretKeyRef → List String
token_warnings (some r) = []
token_warnings none =
    "spec.bearerTokenSecretRef is not set; the external API will be polled unauthenticated" ∷ []

abbrev pub with_warnings : List String → ValidationResponse
with_warnings warnings = if null warnings then allow else allow_with_warnings warnings

-- The rules after the policy, from the last to the first.
abbrev pub check_ref : ApiConfigSyncSpec → ValidationResponse
check_ref spec =
    if ref_is_empty spec.bearer_token_secret_ref
    then deny "spec.bearerTokenSecretRef.name and .key must not be empty"
    else with_warnings (url_warnings spec ++ token_warnings spec.bearer_token_secret_ref)

abbrev pub check_key : ApiConfigSyncSpec → ValidationResponse
check_key spec =
    if is_empty spec.config_key then deny "spec.configKey must not be empty" else check_ref spec

abbrev pub check_rest : ApiConfigSyncSpec → ValidationResponse
check_rest spec =
    if is_empty spec.target_namespace
    then deny "spec.targetNamespace must not be empty"
    else check_key spec

module _ (parse : String → Result String Url) (show_ip : IpAddr → Text) where
  abbrev pub check_url : ApiConfigSyncSpec → Result String Url → ValidationResponse
  check_url spec (err reason) = deny reason
  check_url spec (ok url) = check_rest spec

  abbrev pub validate_object : UrlPolicy → Option ApiConfigSync → ValidationResponse
  validate_object policy none = allow
  validate_object policy (some cr) =
      if is_empty cr.spec.api_url
      then deny "spec.apiUrl must not be empty"
      else check_url cr.spec (check parse show_ip policy cr.spec.api_url)

  -- The error type is `Infallible`, so the response is all there is.
  unfoldable pub validate : UrlPolicy → AdmissionRequest ApiConfigSync → ValidationResponse
  unfolding check allow deny allow_with_warnings starts_with
  validate policy request = validate_object policy request.object
