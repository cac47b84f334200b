-- ===== src/ApiConfigSync/Validator/Accepted.antt =====
-- examples/apiconfigsync/src/validator.rs: which requests the webhook allows.
use koprs.Prelude.{
  ◌≡◌, ◌≢◌, ◌↔◌, refl, String, Bool, true, false, Option, none, some, List, [], ◌∷◌, ◌++◌, is_empty,
  if◌then◌else◌, Result, ok, err, err_ok, true≢false, eq_iff, arith,
}
use koprs.Prelude.Texts.{Text}
use koprs.Admission.Review.{AdmissionRequest, ValidationResponse, allow, deny, allow_with_warnings}
use koprs.ApiConfigSync.Addresses.{IpAddr}
use koprs.ApiConfigSync.Policy.{Url, UrlPolicy, check}
use koprs.ApiConfigSync.Policy.Checked.{Admits, check_iff}
use koprs.ApiConfigSync.Types.{SecretKeyRef, ApiConfigSyncSpec, ApiConfigSync}
use koprs.ApiConfigSync.Validator.{
  ref_is_empty, url_warnings, token_warnings, check_ref, check_key, with_warnings, check_rest,
  check_url, validate_object, validate,
}

-- A reference to a Secret, if there is one, has a name and a key.
abbrev pub RefOk : Option SecretKeyRef → Type 0
RefOk none = Unit {0}
RefOk (some r) = (r.name ≢ "") × (r.key ≢ "")

abbrev pub RestOk : ApiConfigSyncSpec → Type 0
RestOk spec =
    (spec.target_namespace ≢ "") × ((spec.config_key ≢ "") × RefOk spec.bearer_token_secret_ref)

warnings_allow : (warnings : List String) → (with_warnings warnings).allowed ≡ true
unfolding allow allow_with_warnings
warnings_allow [] = refl
warnings_allow (x ∷ xs) = refl

ref_iff : (r : Option SecretKeyRef) → (ref_is_empty r ≡ false) ↔ RefOk r
ref_iff none = (λ h. tt, λ h. refl)
ref_iff (some r) = ground (arith, eq_iff r.name "", eq_iff r.key "")

empty_iff : (s : String) → (is_empty s ≡ false) ↔ (s ≢ "")
empty_iff s = ground (arith, eq_iff s "")

-- A rule before the others.
denied_iff :
    {P Q : Type 0} (b : Bool) (s : String) (rest : ValidationResponse)
    → ((b ≡ false) ↔ P)
    → ((rest.allowed ≡ true) ↔ Q)
    → ((if b then deny s else rest).allowed ≡ true) ↔ (P × Q)
unfolding deny
denied_iff true s rest l r = ((λ h. cc), (λ h. absurd (true≢false (l.1 h.0))))
denied_iff false s rest l r = ((λ h. (l.0 refl, r.0 h)), (λ h. r.1 h.1))

-- The last rule.
last_iff :
    {P : Type 0} (b : Bool) (s : String) (warnings : List String)
    → ((b ≡ false) ↔ P)
    → ((if b then deny s else with_warnings warnings).allowed ≡ true) ↔ P
unfolding deny
last_iff true s warnings l = ((λ h. cc), (λ h. absurd (true≢false (l.1 h))))
last_iff false s warnings l = ((λ h. l.0 refl), (λ h. warnings_allow warnings))

rest_iff : (spec : ApiConfigSyncSpec) → ((check_rest spec).allowed ≡ true) ↔ RestOk spec
rest_iff spec =
    denied_iff (is_empty spec.target_namespace) "spec.targetNamespace must not be empty"
      (check_key spec) (empty_iff spec.target_namespace)
      (denied_iff (is_empty spec.config_key) "spec.configKey must not be empty" (check_ref spec)
        (empty_iff spec.config_key)
        (last_iff (ref_is_empty spec.bearer_token_secret_ref)
          "spec.bearerTokenSecretRef.name and .key must not be empty"
          (url_warnings spec ++ token_warnings spec.bearer_token_secret_ref)
          (ref_iff spec.bearer_token_secret_ref)))

module _ (parse : String → Result String Url) (show_ip : IpAddr → Text) where
  checked_iff :
      (policy : UrlPolicy) (spec : ApiConfigSyncSpec) (r : Result String Url)
      → ((check_url parse show_ip spec r).allowed ≡ true) ↔ (((u : Url) × (r ≡ ok u)) × RestOk spec)
  unfolding deny
  checked_iff policy spec (err e) = ((λ h. cc), (λ h. absurd (err_ok h.0.1)))
  checked_iff policy spec (ok u) =
      ((λ h. ((u, refl), (rest_iff spec).0 h)), (λ h. (rest_iff spec).1 h.1))

  -- What the webhook asks of the object of a request.
  abbrev pub Acceptable : UrlPolicy → Option ApiConfigSync → Type 0
  Acceptable policy none = Unit {0}
  Acceptable policy (some cr) =
      (cr.spec.api_url ≢ "")
      × (((u : Url) × Admits parse show_ip policy cr.spec.api_url u) × RestOk cr.spec)

  object_iff :
      (policy : UrlPolicy) (object : Option ApiConfigSync)
      → ((validate_object parse show_ip policy object).allowed ≡ true) ↔ Acceptable policy object
  unfolding allow
  object_iff policy none = ((λ h. tt), (λ h. refl))
  object_iff policy (some cr) =
      let url = cr.spec.api_url in
      let answer = check parse show_ip policy url in
      let checked = checked_iff policy cr.spec answer in
      denied_iff (is_empty url) "spec.apiUrl must not be empty"
        (check_url parse show_ip cr.spec answer) (empty_iff url)
        (
          (λ h.
              let ((u, e), rest) = checked.0 h in
              ((u, (check_iff parse show_ip policy url u).0 e), rest)),
          (λ ((u, a), rest). checked.1 ((u, (check_iff parse show_ip policy url u).1 a), rest)),
        )

  -- The webhook allows a request exactly when it carries no object, or the object's URL is not
  -- empty and one that the policy lets through, its target namespace and its key are not empty,
  -- and its reference to a Secret, if there is one, has a name and a key.
  pub validate_allowed_iff :
      (policy : UrlPolicy) (request : AdmissionRequest ApiConfigSync)
      → ((validate parse show_ip policy request).allowed ≡ true) ↔ Acceptable policy request.object
  unfolding validate
  validate_allowed_iff policy request = object_iff policy request.object
