-- ===== src/Controller/Health.antt =====
-- crates/koprs/src/controller.rs: the health server's answers and the shared context. The client is
-- a parameter.
use koprs.Prelude.{ℕ, ◌≡◌, refl, String, Bool, false, str_eq, if◌then◌else◌}

pub record Context (Client T : Type 0) : Type 0 where
  pub client : Client
  pub data_ : T

unfoldable pub new : {Client : Type 0} → Client → Context Client (Unit {0})
new client = record { client = client; data_ = tt }

unfoldable pub with_data : {Client T : Type 0} → Client → T → Context Client T
with_data client d = record { client = client; data_ = d }

-- `serve_health`: the answer to a request for a path.
unfoldable pub health_response : Bool → String → ℕ × String
health_response ready path =
    if str_eq path "/readyz" then if ready then (200, "ok") else (503, "not ready") else (200, "ok")

alive : health_response false "/healthz" ≡ (200, "ok")
unfolding health_response
alive = refl

unready : health_response false "/readyz" ≡ (503, "not ready")
unfolding health_response
unready = refl
