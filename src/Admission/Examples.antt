-- ===== src/Admission/Examples.antt =====
-- crates/koprs-admission/src: a concrete review.
use koprs.Prelude.{ℕ, suc, [], ◌≡◌, refl, true, false, none, some, ltb, ok}
use koprs.Admission.Json.{Json, null, string, object, end, field}
use koprs.Admission.Review.{Decoders, default_kind, default_resource, default_user}
use koprs.Admission.Webhook.{code, Validator, route}
use koprs.Admission.Decisions.{IsAllowed, Passed, route-IsAllowed}

abbrev decoders : Decoders Json
decoders = record {
  decode = λ v. ok v;
  decode_kind = λ v. ok default_kind;
  decode_resource = λ v. ok default_resource;
  decode_user = λ v. ok default_user;
}

abbrev body : Json
body =
    object
      (field "request" (object (field "uid" (string "u1") (field "object" (string "pod") end))) end)

-- A validator that counts, and lets through what has an object.
abbrev validate : Validator ℕ Json
validate request w = elim request.object [
  | none ↦ (ok (record { allowed = false; message = none; warnings = [] }), suc w)
  | some o ↦ (ok (record { allowed = true; message = none; warnings = [] }), suc w)
]

let_through : IsAllowed (route decoders validate 10 3 0 body 0).0
unfolding route
let_through = refl

too_slow : route decoders validate 10 11 7 body 0 ≡ (code 500, 7)
unfolding route
too_slow = refl

no_request : IsAllowed (route decoders validate 10 3 0 null 0).0 → ⊥
unfolding route
no_request h = cc

route-IsAllowed_example : (ltb 10 3 ≡ false) × Passed decoders validate body 0
route-IsAllowed_example = route-IsAllowed decoders validate 10 3 0 body 0 let_through
