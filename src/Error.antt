-- ===== src/Error.antt =====
-- crates/koprs/src/error.rs: the error type of the library and the label of its metric.
use koprs.Prelude.{ℕ, ◌&&◌, String, leb, ◌==◌, if◌then◌else◌}

-- `kube::Error`, as far as the source reads it: an error response of the API server with its
-- HTTP status, or any other client error.
pub data KubeError : Type 0 where
  api : ℕ → KubeError
  client : String → KubeError

pub data KubeGenericError : Type 0 where
  kube : KubeError → KubeGenericError
  missing_metadata : String → KubeGenericError
  serialization : String → KubeGenericError
  io : String → KubeGenericError
  config : String → KubeGenericError
  leader_election_lost : String → KubeGenericError
  internal : String → KubeGenericError

-- The match on `ae.code`.
api_label : ℕ → String
api_label code =
    if code == 400
    then "kube_bad_request"
    else if code == 401
    then "kube_unauthorized"
    else if code == 403
    then "kube_forbidden"
    else if code == 404
    then "kube_not_found"
    else if code == 409
    then "kube_conflict"
    else if code == 410
    then "kube_gone"
    else if code == 422
    then "kube_invalid"
    else if code == 429
    then "kube_too_many_requests"
    else if leb 500 code && leb code 599
    then "kube_server_error"
    else "kube_api_error"

unfoldable pub metric_label : KubeGenericError → String
unfolding api_label
metric_label (kube (api code)) = api_label code
metric_label (kube (client e)) = "kube_client_error"
metric_label (missing_metadata f) = "missing_metadata"
metric_label (serialization e) = "serialization"
metric_label (io e) = "io"
metric_label (config e) = "config"
metric_label (leader_election_lost e) = "leader_election_lost"
metric_label (internal e) = "internal"
