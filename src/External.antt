-- ===== src/External.antt =====
-- crates/koprs-external/src: pollers of sources outside the cluster.
pub mod Watcher
pub mod Http
pub mod Store
pub mod Backoff
pub mod Protocol
pub mod Examples
use koprs.Prelude.{String}

-- crates/koprs-external/src/error.rs.
pub data ExternalError : Type 0 where
  http : String → ExternalError
  io : String → ExternalError
  internal : String → ExternalError

pub data ExternalEvent (A : Type 0) : Type 0 where
  added : A → ExternalEvent A
  modified : A → ExternalEvent A
  removed : A → ExternalEvent A
