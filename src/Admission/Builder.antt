-- ===== src/Admission/Builder.antt =====
-- crates/koprs-admission/src/webhook.rs: `WebhookBuilder`. `Tls` is the settings of rustls,
-- which `tls_from_pem` and `tls_from_files` build.
use koprs.Prelude.{
  ℕ, ◌*◌, String, Bool, true, false, Option, none, some, List, [], ◌∷◌, ◌++◌, Result, ok,
}
use koprs.Prelude.Fallible.{◌>>=◌}
use koprs.Admission.{AdmissionError}
use koprs.Admission.Tls
use koprs.Admission.Tls.{
  Rustls, Disk, Accesses, Resolver, static, reloading, ServerConfig, default_reload_interval,
  certified_key_from_pem, server_config,
}
use koprs.Admission.Json.{Json}
use koprs.Admission.Review.{Decoders}
use koprs.Admission.Webhook.{Answer, Validator, admit}

abbrev pub BoxedHandler : Type 0 → Type 0
BoxedHandler W = Json → W → Answer × W

pub record WebhookBuilder (W Tls : Type 0) : Type 0 where
  pub port_number : ℕ
  pub tls_settings : Option Tls
  pub health : Option ℕ
  pub graceful : Bool
  pub timeout : ℕ
  pub routes : List (String × BoxedHandler W)

-- Ten seconds, in nanoseconds.
unfoldable pub default_request_timeout : ℕ
default_request_timeout = 10 * 1000000000

module _ {W Tls : Type 0} where
  unfoldable pub new : WebhookBuilder W Tls
  unfolding default_request_timeout
  new = record {
    port_number = 8443;
    tls_settings = none;
    health = none;
    graceful = false;
    timeout = default_request_timeout;
    routes = [];
  }

  unfoldable pub port : WebhookBuilder W Tls → ℕ → WebhookBuilder W Tls
  port b n = record b { port_number = n }

  unfoldable pub with_tls : WebhookBuilder W Tls → Tls → WebhookBuilder W Tls
  with_tls b t = record b { tls_settings = some t }

  unfoldable pub health_port : WebhookBuilder W Tls → ℕ → WebhookBuilder W Tls
  health_port b n = record b { health = some n }

  unfoldable pub graceful_shutdown : WebhookBuilder W Tls → WebhookBuilder W Tls
  graceful_shutdown b = record b { graceful = true }

  unfoldable pub request_timeout : WebhookBuilder W Tls → ℕ → WebhookBuilder W Tls
  request_timeout b limit = record b { timeout = limit }

  unfoldable pub validate :
      {T : Type 0}
      → Decoders T
      → Validator W T
      → WebhookBuilder W Tls
      → String
      → WebhookBuilder W Tls
  unfolding admit
  validate d validator b path = record b { routes = b.routes ++ (path, admit d validator) ∷ [] }

module _ {W C P K : Type 0} (lib : Rustls C P K) where
  abbrev with_resolver :
      WebhookBuilder W (ServerConfig K)
      → Resolver K
      → Result AdmissionError (WebhookBuilder W (ServerConfig K))
  with_resolver b resolver = do
    config ← server_config lib resolver
    ok (record b { tls_settings = some config })

  unfoldable pub tls_from_pem :
      WebhookBuilder W (ServerConfig K)
      → String
      → String
      → Result AdmissionError (WebhookBuilder W (ServerConfig K))
  unfolding certified_key_from_pem server_config
  tls_from_pem b cert_pem key_pem = do
    key ← certified_key_from_pem lib cert_pem key_pem
    with_resolver b (static key)

  -- The files are read at the given moments; the resolver is ready at `now`.
  unfoldable pub tls_from_files_with_interval :
      WebhookBuilder W (ServerConfig K)
      → Disk
      → Accesses
      → ℕ
      → ℕ
      → Result AdmissionError (WebhookBuilder W (ServerConfig K))
  unfolding Tls.new server_config
  tls_from_files_with_interval b d a now reload_interval = do
    state ← Tls.new lib d a now
    with_resolver b (reloading reload_interval state)

  unfoldable pub tls_from_files :
      WebhookBuilder W (ServerConfig K)
      → Disk
      → Accesses
      → ℕ
      → Result AdmissionError (WebhookBuilder W (ServerConfig K))
  unfolding tls_from_files_with_interval default_reload_interval
  tls_from_files b d a now = tls_from_files_with_interval b d a now default_reload_interval
