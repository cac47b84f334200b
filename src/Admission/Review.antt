-- ===== src/Admission/Review.antt =====
-- crates/koprs-admission/src/review.rs: parsing an `AdmissionReview` and building the answer. The
-- deserialisers of the structured fields (serde) are parameters.
use koprs.Prelude.{
  ℕ, String, Bool, true, false, Option, none, some, List, [], ◌∷◌, str_eq, is_empty, if◌then◌else◌,
  Result, ok, err, ok_or,
}
use koprs.Prelude.Fallible.{◌>>=◌}
use koprs.Admission.{AdmissionError, serialization, internal}
use koprs.Admission.Json.{
  Json, boolean, number, string, array, object, Fields, end, field, get, as_str, as_bool, non_null,
  unwrap_or, strings,
}

pub data Operation : Type 0 where
  create : Operation
  update : Operation
  delete : Operation
  connect : Operation
  unknown : String → Operation

unfoldable pub from_str : String → Operation
from_str s =
    if str_eq s "CREATE"
    then create
    else if str_eq s "UPDATE"
    then update
    else if str_eq s "DELETE"
    then delete
    else if str_eq s "CONNECT"
    then connect
    else unknown s

pub record GroupVersionKind : Type 0 where
  pub group : String
  pub version : String
  pub kind : String

pub record GroupVersionResource : Type 0 where
  pub group : String
  pub version : String
  pub resource : String

pub record UserInfo : Type 0 where
  pub username : String
  pub uid : String
  pub groups : List String
  pub extra : List (String × List String)

pub record AdmissionRequest (T : Type 0) : Type 0 where
  pub uid : String
  pub kind : GroupVersionKind
  pub resource : GroupVersionResource
  pub sub_resource : Option String
  pub request_kind : Option GroupVersionKind
  pub request_resource : Option GroupVersionResource
  pub request_sub_resource : Option String
  pub user_info : UserInfo
  pub name : String
  pub namespace : Option String
  pub operation : Operation
  pub object : Option T
  pub old_object : Option T
  pub dry_run : Bool

pub record ValidationResponse : Type 0 where
  pub allowed : Bool
  pub message : Option String
  pub warnings : List String

unfoldable pub allow : ValidationResponse
allow = record { allowed = true; message = none; warnings = [] }

unfoldable pub deny : String → ValidationResponse
deny message = record { allowed = false; message = some message; warnings = [] }

unfoldable pub allow_with_warnings : List String → ValidationResponse
allow_with_warnings warnings = record { allowed = true; message = none; warnings = warnings }

-- `and_then` on the request of a body.
abbrev pub get_in : Option Json → String → Option Json
get_in none key = none
get_in (some v) key = get v key

unfoldable pub parse_uid : Json → String
parse_uid body = unwrap_or (as_str (get_in (get body "request") "uid")) ""

-- The deserialisers, each with its failure.
pub record Decoders (T : Type 0) : Type 0 where
  pub decode : Json → Result String T
  pub decode_kind : Json → Result String GroupVersionKind
  pub decode_resource : Json → Result String GroupVersionResource
  pub decode_user : Json → Result String UserInfo

abbrev pub transpose :
    {F : Type 0} → (Json → Result String F) → Option Json → Result AdmissionError (Option F)
transpose decode none = ok none
transpose decode (some v) = elim (decode v) [ ok f ↦ ok (some f) | err e ↦ err (serialization e) ]

unfoldable pub optional_field :
    {F : Type 0} → (Json → Result String F) → Json → String → Result AdmissionError (Option F)
optional_field decode request key = transpose decode (non_null (get request key))

abbrev pub non_empty : Option String → Option String
non_empty none = none
non_empty (some s) = if is_empty s then none else some s

abbrev pub operation_of : Option String → Operation
operation_of none = unknown ""
operation_of (some s) = from_str s

-- The `Default` values of the three structs.
abbrev pub default_kind : GroupVersionKind
default_kind = record { group = ""; version = ""; kind = "" }

abbrev pub default_resource : GroupVersionResource
default_resource = record { group = ""; version = ""; resource = "" }

abbrev pub default_user : UserInfo
default_user = record { username = ""; uid = ""; groups = []; extra = [] }

module _ {T : Type 0} (d : Decoders T) where
  -- The fields of the request. The decoders run in the order of the source, and the first failure
  -- ends it.
  unfoldable pub parse_fields : Json → Result AdmissionError (AdmissionRequest T)
  unfolding optional_field
  parse_fields request = do
    object_value ← optional_field d.decode request "object"
    old_value ← optional_field d.decode request "oldObject"
    kind ← optional_field d.decode_kind request "kind"
    resource ← optional_field d.decode_resource request "resource"
    request_kind ← optional_field d.decode_kind request "requestKind"
    request_resource ← optional_field d.decode_resource request "requestResource"
    user ← optional_field d.decode_user request "userInfo"
    ok (record {
      uid = unwrap_or (as_str (get request "uid")) "";
      kind = unwrap_or kind default_kind;
      resource = unwrap_or resource default_resource;
      sub_resource = non_empty (as_str (get request "subResource"));
      request_kind = request_kind;
      request_resource = request_resource;
      request_sub_resource = non_empty (as_str (get request "requestSubResource"));
      user_info = unwrap_or user default_user;
      name = unwrap_or (as_str (get request "name")) "";
      namespace = as_str (get request "namespace");
      operation = operation_of (as_str (get request "operation"));
      object = object_value;
      old_object = old_value;
      dry_run = unwrap_or (as_bool (get request "dryRun")) false;
    })

  unfoldable pub parse_request : Json → Result AdmissionError (AdmissionRequest T)
  unfolding parse_fields
  parse_request body = do
    request ← ok_or (get body "request") (internal "AdmissionReview missing 'request' field")
    parse_fields request

-- The review object around a response.
abbrev pub review : Fields → Json
review response = object (
    field "apiVersion" (string "admission.k8s.io/v1")
      (field "kind" (string "AdmissionReview") (field "response" (object response) end)))

abbrev pub status : ℕ → String → Fields → Fields
status code message rest =
    field "status" (object (field "code" (number code) (field "message" (string message) end))) rest

abbrev pub with_message : Bool → Option String → Fields → Fields
with_message allowed none rest = rest
with_message allowed (some m) rest = status (if allowed then 200 else 403) m rest

abbrev pub with_warnings : List String → Fields
with_warnings [] = end
with_warnings (w ∷ ws) = field "warnings" (array (strings (w ∷ ws))) end

unfoldable pub build_response : String → ValidationResponse → Json
build_response uid resp = review (
    field "uid" (string uid) (
      field "allowed" (boolean resp.allowed)
        (with_message resp.allowed resp.message (with_warnings resp.warnings))))

unfoldable pub build_deny_response : String → String → Json
build_deny_response uid message =
    review (field "uid" (string uid) (field "allowed" (boolean false) (status 400 message end)))
