-- ===== src/Admission/Webhook.antt =====
-- crates/koprs-admission/src/webhook.rs: the handler of a review and its timeout. The validator is
-- a parameter.
use koprs.Prelude.{ℕ, String, Result, ok, err, ltb, if◌then◌else◌}
use koprs.Prelude.Tasks.{Task}
use koprs.Admission.{AdmissionError, display}
use koprs.Admission.Json.{Json}
use koprs.Admission.Review.{
  AdmissionRequest, ValidationResponse, Decoders, parse_uid, parse_request, build_response,
  build_deny_response,
}

-- The answer: a JSON body with status 200, or a bare status.
pub data Answer : Type 0 where
  json : Json → Answer
  code : ℕ → Answer

abbrev pub Validator : Type 0 → Type 0 → Type 0
Validator W T = AdmissionRequest T → Task W String ValidationResponse

abbrev pub answer_of : String → Result String ValidationResponse → Answer
answer_of uid (ok resp) = json (build_response uid resp)
answer_of uid (err e) = code 500

module _ {W T : Type 0} (d : Decoders T) (validate : Validator W T) where
  abbrev pub admit_parsed : String → Result AdmissionError (AdmissionRequest T) → W → Answer × W
  admit_parsed uid (err e) w = (json (build_deny_response uid (display e)), w)
  admit_parsed uid (ok request) w = (answer_of uid (validate request w).0, (validate request w).1)

  unfoldable pub admit : Json → W → Answer × W
  unfolding parse_uid parse_request build_response build_deny_response
  admit body w = admit_parsed (parse_uid body) (parse_request d body) w

  -- The route: a handler that takes longer than the timeout is dropped, with what it left.
  unfoldable pub route : ℕ → ℕ → W → Json → W → Answer × W
  unfolding admit
  route request_timeout took left body w =
      if ltb request_timeout took then (code 500, left) else admit body w
