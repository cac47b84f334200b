-- ===== src/External/Http.antt =====
-- crates/koprs-external/src/http.rs: the HTTP poller. The client is a parameter: it answers a
-- request with a response, whose text headers are already decoded and whose body comes in chunks.
-- So are the parsers of header names and values.
use Prim.Native.String
use koprs.Prelude.{
  ℕ, ◌+◌, String, Bool, true, false, ◌&&◌, Option, none, some, List, [], ◌∷◌, ◌++◌, ltb, leb, ◌==◌,
  if◌then◌else◌, Result, ok, err, map_err, length,
}
use koprs.Prelude.Fallible.{◌>>=◌}
use koprs.External.{ExternalError, http, internal, ExternalEvent, added, modified, removed}

abbrev pub Bytes : Type 0
Bytes = List ℕ

pub record HttpResponse : Type 0 where
  pub body : Bytes
  pub url : String
  pub status : ℕ
  pub etag : Option String
  pub last_modified : Option String
  pub content_type : Option String

pub record HttpPoller : Type 0 where
  pub url : String
  pub name : String
  pub extra_headers : List (String × String)
  pub last_etag : Option String
  pub last_modified_value : Option String
  pub seen : Bool
  pub max_body_bytes : Option ℕ

unfoldable pub new : String → HttpPoller
new url = record {
  url = url;
  name = url;
  extra_headers = [];
  last_etag = none;
  last_modified_value = none;
  seen = false;
  max_body_bytes = none;
}

unfoldable pub with_max_body_size : HttpPoller → ℕ → HttpPoller
with_max_body_size p max = record p { max_body_bytes = some max }

unfoldable pub with_header : HttpPoller → String → String → HttpPoller
with_header p key value = record p { extra_headers = p.extra_headers ++ (key, value) ∷ [] }

unfoldable pub with_name : HttpPoller → String → HttpPoller
with_name p name = record p { name = name }

unfoldable pub with_bearer_token : HttpPoller → String → HttpPoller
unfolding with_header
with_bearer_token p token = with_header p "authorization" (String.◌++◌ "Bearer " token)

-- A response of the client: each chunk of the body arrives or fails.
pub record Response : Type 0 where
  pub status : ℕ
  pub etag : Option String
  pub last_modified : Option String
  pub content_type : Option String
  pub content_length : Option ℕ
  pub chunks : List (Result String Bytes)

pub record Request : Type 0 where
  pub url : String
  pub headers : List (String × String)

-- The whole body, when there is no limit.
abbrev pub all_chunks : List (Result String Bytes) → Bytes → Result ExternalError Bytes
all_chunks [] buf = ok buf
all_chunks (ok chunk ∷ rest) buf = all_chunks rest (buf ++ chunk)
all_chunks (err e ∷ rest) buf = err (http e)

abbrev pub too_large : ExternalError
too_large = internal "response body exceeds the limit"

-- The loop over the chunks. A chunk that does not fit ends it.
unfoldable pub read_chunks : ℕ → List (Result String Bytes) → Bytes → Result ExternalError Bytes
read_chunks max [] buf = ok buf
read_chunks max (ok chunk ∷ rest) buf =
    let more = read_chunks max rest (buf ++ chunk) in
    if ltb max (length buf + length chunk) then err too_large else more
read_chunks max (err e ∷ rest) buf = err (http e)

abbrev pub announced : Option ℕ → ℕ → Bool
announced none max = false
announced (some len) max = ltb max len

unfoldable pub read_body : Response → Option ℕ → Result ExternalError Bytes
unfolding read_chunks
read_body r none = all_chunks r.chunks []
read_body r (some max) =
    if announced r.content_length max then err too_large else read_chunks max r.chunks []

-- The headers of a conditional request: `ETag` is preferred.
unfoldable pub condition : HttpPoller → List (String × String)
condition p = elim p.last_etag [
  | some etag ↦ ("if-none-match", etag) ∷ []
  | none ↦ elim p.last_modified_value [ some lm ↦ ("if-modified-since", lm) ∷ [] | none ↦ [] ]
]

module _ (parse_name parse_value : String → Result String String) where
  unfoldable pub add_headers :
      List (String × String)
      → List (String × String)
      → Result ExternalError (List (String × String))
  add_headers headers [] = ok headers
  add_headers headers ((key, value) ∷ more) = do
    name ← map_err internal (parse_name key)
    val ← map_err internal (parse_value value)
    add_headers (headers ++ (name, val) ∷ []) more

  abbrev pub success_event : Bool → HttpResponse → ExternalEvent HttpResponse
  success_event true r = modified r
  success_event false r = added r

  abbrev pub on_success :
      HttpPoller
      → Response
      → Result ExternalError Bytes
      → Result ExternalError (List (ExternalEvent HttpResponse)) × HttpPoller
  on_success p r (err e) = (err e, p)
  on_success p r (ok body) = (
    ok (
        success_event p.seen (record {
          body = body;
          url = p.url;
          status = r.status;
          etag = r.etag;
          last_modified = r.last_modified;
          content_type = r.content_type;
        })
        ∷ []),
    record p { seen = true; last_etag = r.etag; last_modified_value = r.last_modified },
  )

  abbrev pub gone : String → HttpResponse
  gone url = record {
    body = [];
    url = url;
    status = 404;
    etag = none;
    last_modified = none;
    content_type = none;
  }

  -- The match on the status; 2xx is `is_success`.
  unfoldable pub on_response :
      HttpPoller → Response → Result ExternalError (List (ExternalEvent HttpResponse)) × HttpPoller
  unfolding read_body
  on_response p r =
      if r.status == 304
      then (ok [], p)
      else if r.status == 404
      then (if p.seen
          then (
            ok (removed (gone p.url) ∷ []),
            record p { seen = false; last_etag = none; last_modified_value = none },
          )
          else (ok [], p))
      else if leb 200 r.status && ltb r.status 300
      then on_success p r (read_body r p.max_body_bytes)
      else (err (internal "Unexpected HTTP status"), p)

  abbrev pub on_answer :
      HttpPoller
      → Result String Response
      → Result ExternalError (List (ExternalEvent HttpResponse)) × HttpPoller
  on_answer p (err e) = (err (http e), p)
  on_answer p (ok r) = on_response p r

  abbrev pub on_headers :
      HttpPoller
      → (Request → Result String Response)
      → Result ExternalError (List (String × String))
      → Result ExternalError (List (ExternalEvent HttpResponse)) × HttpPoller
  on_headers p send (err e) = (err e, p)
  on_headers p send (ok headers) = on_answer p (send (record { url = p.url; headers = headers }))

  unfoldable pub poll :
      HttpPoller
      → (Request → Result String Response)
      → Result ExternalError (List (ExternalEvent HttpResponse)) × HttpPoller
  unfolding condition add_headers on_response
  poll p send = on_headers p send (add_headers (condition p) p.extra_headers)
