-- ===== src/Admission/Decisions.antt =====
-- crates/koprs-admission/src: which answers let a request pass, and whose they are.
use koprs.Prelude.{
  ℕ, ◌≡◌, refl, sym, ◌∙◌, String, Bool, true, false, Option, some, Result, ok, err, ltb,
  if◌then◌else◌,
}
use koprs.Admission.{AdmissionError, display}
use koprs.Admission.Json.{Json, boolean, string, get}
use koprs.Admission.Review.{
  AdmissionRequest, ValidationResponse, Decoders, get_in, parse_uid, parse_request, build_response,
  build_deny_response,
}
use koprs.Admission.Webhook.{Answer, json, code, Validator, answer_of, admit_parsed, admit, route}

-- What the API server reads of an answer.
abbrev pub response_field : String → Json → Option Json
response_field key review = get_in (get review "response") key

abbrev pub IsAllowed : Answer → Type 0
IsAllowed (json r) = response_field "allowed" r ≡ some (boolean true)
IsAllowed (code n) = ⊥

abbrev pub Echoes : String → Answer → Type 0
Echoes uid (json r) = response_field "uid" r ≡ some (string uid)
Echoes uid (code n) = n ≡ 500

allowed-build_response :
    (uid : String) (resp : ValidationResponse)
    → response_field "allowed" (build_response uid resp) ≡ some (boolean resp.allowed)
unfolding build_response
allowed-build_response uid resp = refl

denied : (uid message : String) → IsAllowed (json (build_deny_response uid message)) → ⊥
unfolding build_deny_response
denied uid message h = cc

boolean_inj : (a b : Bool) → ◌≡◌ {A = Option Json} (some (boolean a)) (some (boolean b)) → a ≡ b
boolean_inj a b h = cc

module _ {W T : Type 0} (d : Decoders T) (validate : Validator W T) where
  -- The validator let the request of the body pass.
  abbrev pub Passed : Json → W → Type 0
  Passed body w =
      (request : AdmissionRequest T) × (resp : ValidationResponse) × (parse_request d body
        ≡ ok request)
      × ((validate request w).0 ≡ ok resp)
      × (resp.allowed ≡ true)

  answer_of-IsAllowed :
      (uid : String) (r : Result String ValidationResponse)
      → IsAllowed (answer_of uid r)
      → (resp : ValidationResponse) × (r ≡ ok resp) × (resp.allowed ≡ true)
  answer_of-IsAllowed uid (err e) h = absurd h
  answer_of-IsAllowed uid (ok resp) h =
      (resp, refl, boolean_inj _ _ (sym (allowed-build_response uid resp) ∙ h))

  admit_parsed-IsAllowed :
      (body : Json) (uid : String) (parsed : Result AdmissionError (AdmissionRequest T)) (w : W)
      → parse_request d body ≡ parsed
      → IsAllowed (admit_parsed d validate uid parsed w).0
      → Passed body w
  admit_parsed-IsAllowed body uid (err e) w same h = absurd (denied uid (display e) h)
  admit_parsed-IsAllowed body uid (ok request) w same h =
      let (resp, e, let_in) = answer_of-IsAllowed uid (validate request w).0 h in
      (request, resp, same, e, let_in)

  admit-IsAllowed : (body : Json) (w : W) → IsAllowed (admit d validate body w).0 → Passed body w
  unfolding admit
  admit-IsAllowed body w h =
      admit_parsed-IsAllowed body (parse_uid body) (parse_request d body) w refl h

  in_time-IsAllowed :
      (late : Bool) (left : W) (x : Answer × W)
      → IsAllowed (if late then (code 500, left) else x).0
      → (late ≡ false) × IsAllowed x.0
  in_time-IsAllowed true left x h = absurd h
  in_time-IsAllowed false left x h = (refl, h)

  -- The route fails closed: an answer lets the request pass only if the body parses and the
  -- validator, asked about the parsed request in time, allows it. A body that does not parse, an
  -- error of the validator and a timeout never do.
  pub route-IsAllowed :
      (request_timeout took : ℕ) (left : W) (body : Json) (w : W)
      → IsAllowed (route d validate request_timeout took left body w).0
      → (ltb request_timeout took ≡ false) × Passed body w
  unfolding route
  route-IsAllowed request_timeout took left body w h =
      let (soon, h') =
        in_time-IsAllowed (ltb request_timeout took) left (admit d validate body w) h in
      (soon, admit-IsAllowed body w h')

  answer_of-Echoes :
      (uid : String) (r : Result String ValidationResponse) → Echoes uid (answer_of uid r)
  unfolding build_response
  answer_of-Echoes uid (ok resp) = refl
  answer_of-Echoes uid (err e) = refl

  admit_parsed-Echoes :
      (uid : String) (parsed : Result AdmissionError (AdmissionRequest T)) (w : W)
      → Echoes uid (admit_parsed d validate uid parsed w).0
  unfolding build_deny_response
  admit_parsed-Echoes uid (err e) w = refl
  admit_parsed-Echoes uid (ok request) w = answer_of-Echoes uid (validate request w).0

  in_time-Echoes :
      (uid : String) (late : Bool) (left : W) (x : Answer × W)
      → Echoes uid x.0
      → Echoes uid (if late then (code 500, left) else x).0
  in_time-Echoes uid true left x h = refl
  in_time-Echoes uid false left x h = h

  -- Every JSON answer of the route carries the uid of the request that it answers, and every other
  -- answer is a 500.
  pub route-Echoes :
      (request_timeout took : ℕ) (left : W) (body : Json) (w : W)
      → Echoes (parse_uid body) (route d validate request_timeout took left body w).0
  unfolding route admit
  route-Echoes request_timeout took left body w =
      in_time-Echoes (parse_uid body) (ltb request_timeout took) left (admit d validate body w)
        (admit_parsed-Echoes (parse_uid body) (parse_request d body) w)
