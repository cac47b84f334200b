-- ===== src/ApiConfigSync/Fetch.antt =====
-- examples/apiconfigsync/src/reconciler.rs: the bearer token and the body that the reconciler polls.
use koprs.Prelude.{ℕ, ◌*◌, String, Option, none, some, List, [], ◌∷◌, Result, ok, err, ok_or}
use koprs.Prelude.Strings.{trim}
use koprs.Prelude.Maps.{get}
use koprs.Prelude.Tasks.{Task, ◌>>=◌, done}
use koprs.Prelude.Texts.{Text}
use koprs.Error.{KubeGenericError, config, internal as internal_error}
use koprs.Kube.{ApiServer, namespaced}
use koprs.Gc.{is_whitespace}
use koprs.Resources.{get_answer}
use koprs.External.{ExternalError, ExternalEvent, added, modified, removed, http, io, internal}
use koprs.External.Http.{
  Bytes, HttpResponse, HttpPoller, Request, Response, new, with_max_body_size, with_name,
  with_bearer_token, poll,
}
use koprs.Operators.{format}
use koprs.Operators.SecretSync.{Secret}
use koprs.ApiConfigSync.Addresses.{IpAddr}
use koprs.ApiConfigSync.Policy.{Url}
use koprs.ApiConfigSync.Types.{SecretKeyRef}

-- `MAX_BODY_BYTES` of url_policy.rs.
abbrev pub max_body_bytes : ℕ
max_body_bytes = 1024 * 1024

unfoldable pub build_poller : String → Option String → String → String → HttpPoller
unfolding new with_max_body_size with_name with_bearer_token
build_poller url bearer_token cr_namespace cr_name =
    let poller =
      with_name (with_max_body_size (new url) max_body_bytes)
        (format ("apiconfigsync/" ∷ cr_namespace ∷ "/" ∷ cr_name ∷ [])) in
    elim bearer_token [ some token ↦ with_bearer_token poller token | none ↦ poller ]

-- `ExternalError`'s `to_string`.
unfoldable pub error_text : ExternalError → String
error_text (http e) = format ("HTTP error: " ∷ e ∷ [])
error_text (io e) = format ("I/O error: " ∷ e ∷ [])
error_text (internal e) = format ("Internal error: " ∷ e ∷ [])

-- What the reconciler calls outside the library.
pub record Outside (W : Type 0) : Type 0 where
  pub secrets : ApiServer W Secret
  pub exchange : W → (Request → Result String Response) × W
  pub parse_header_name : String → Result String String
  pub parse_header_value : String → Result String String
  pub from_utf8 : Bytes → Option String
  pub from_utf8_lossy : Bytes → String
  pub parse_url : String → Result String Url
  pub show_ip : IpAddr → Text

-- A key of the data of a Secret.
abbrev pub bytes_at : String → Option (List (String × Bytes)) → Option Bytes
bytes_at key none = none
bytes_at key (some entries) = get key entries

module _ {W : Type 0} (outside : Outside W) where
  -- `api.get_opt(..).await?`.
  abbrev pub get_secret : String → String → Task W KubeGenericError (Option Secret)
  get_secret namespace name w =
      let answer = outside.secrets.get (namespaced namespace) name w in
      (get_answer answer.0, answer.1)

  unfoldable pub read_token : String → SecretKeyRef → Task W KubeGenericError String
  unfolding is_whitespace
  read_token namespace r = do
    found ← get_secret namespace r.name
    secret ← done (
        ok_or found (
          config
            (format ("bearer token Secret '" ∷ namespace ∷ "/" ∷ r.name ∷ "' not found" ∷ []))))
    bytes ← done (
        ok_or (bytes_at r.key secret.data_) (
          config
            (format ("Secret '" ∷ namespace ∷ "/" ∷ r.name ∷ "' has no key '" ∷ r.key ∷ "'" ∷ []))))
    token ← done (
        ok_or (outside.from_utf8 bytes) (
          config (
            format (
              "Secret '" ∷ namespace ∷ "/" ∷ r.name ∷ "' key '" ∷ r.key ∷ "' is not valid UTF-8"
              ∷ []))))
    done (ok (trim is_whitespace token))

  -- The token of the reference, if there is one.
  abbrev pub optional_token : String → Option SecretKeyRef → Task W KubeGenericError (Option String)
  optional_token namespace none = done (ok none)
  optional_token namespace (some r) = do token ← read_token namespace r; done (ok (some token))

  -- The match on the first event.
  abbrev pub body_of :
      Result ExternalError (List (ExternalEvent HttpResponse)) → Result KubeGenericError String
  body_of (err e) = err (internal_error (error_text e))
  body_of (ok []) = ok ""
  body_of (ok (added r ∷ events)) = ok (outside.from_utf8_lossy r.body)
  body_of (ok (modified r ∷ events)) = ok (outside.from_utf8_lossy r.body)
  body_of (ok (removed r ∷ events)) = ok ""

  abbrev pub fetch : HttpPoller → Task W KubeGenericError String
  fetch poller w =
      let sent = outside.exchange w in
      (body_of (poll outside.parse_header_name outside.parse_header_value poller sent.0).0, sent.1)
