-- ===== src/Admission.antt =====
-- crates/koprs-admission/src: admission reviews and the handler of the webhook server.
pub mod Json
pub mod Review
pub mod Webhook
pub mod Tls
pub mod Builder
pub mod Server
pub mod Decisions
pub mod Examples
use Prim.Native.String
use koprs.Prelude.{String}

-- crates/koprs-admission/src/error.rs.
pub data AdmissionError : Type 0 where
  tls : String → AdmissionError
  io : String → AdmissionError
  serialization : String → AdmissionError
  internal : String → AdmissionError

-- `to_string`.
unfoldable pub display : AdmissionError → String
display (tls e) = String.◌++◌ "TLS error: " e
display (io e) = String.◌++◌ "I/O error: " e
display (serialization e) = String.◌++◌ "Serialization error: " e
display (internal e) = String.◌++◌ "Internal error: " e
