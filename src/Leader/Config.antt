-- ===== src/Leader/Config.antt =====
-- crates/koprs/src/leader.rs: the settings and their validation. A `Duration` is a number of
-- nanoseconds.
pub mod Bounds
use koprs.Prelude.{
  ℕ, ◌+◌, ◌*◌, ◌/◌, ◌%◌, String, ltb, leb, ◌==◌, if◌then◌else◌, is_empty, i32_max, Result, ok, err,
}
use koprs.Error.{KubeGenericError, config}

abbrev pub nanos_per_sec : ℕ
nanos_per_sec = 1000000000

-- `Duration::from_secs`, `as_secs` and `subsec_nanos`.
abbrev pub from_secs : ℕ → ℕ
from_secs n = n * nanos_per_sec

abbrev pub as_secs : ℕ → ℕ
as_secs d = d / nanos_per_sec

abbrev pub subsec_nanos : ℕ → ℕ
subsec_nanos d = d % nanos_per_sec

pub record LeaderElectionConfig : Type 0 where
  pub namespace : String
  pub name : String
  pub identity : String
  pub lease_duration : ℕ
  pub renew_deadline : ℕ
  pub retry_period : ℕ

abbrev pub default_lease_duration : ℕ
default_lease_duration = from_secs 15

abbrev pub default_renew_deadline : ℕ
default_renew_deadline = from_secs 10

abbrev pub default_retry_period : ℕ
default_retry_period = from_secs 2

-- `LeaderElectionConfig::new`.
unfoldable pub new : String → String → String → LeaderElectionConfig
new namespace name identity = record {
  namespace = namespace;
  name = name;
  identity = identity;
  lease_duration = default_lease_duration;
  renew_deadline = default_renew_deadline;
  retry_period = default_retry_period;
}

-- The durations in the last two messages are left out of the text.
unfoldable pub validate : LeaderElectionConfig → Result KubeGenericError (Unit {0})
validate c =
    if is_empty c.identity
    then err (config "leader election identity must not be empty")
    else if c.retry_period == 0
    then err (config "leader election retry_period must be greater than zero")
    else if ltb c.lease_duration (from_secs 1)
    then err (config "leader election lease_duration must be at least 1s")
    else if ltb i32_max (as_secs c.lease_duration)
    then err (config "leader election lease_duration is too large")
    else if leb c.lease_duration c.renew_deadline
    then err (config "leader election renew_deadline must be shorter than lease_duration")
    else if leb c.renew_deadline c.retry_period
    then err (config "leader election retry_period must be shorter than renew_deadline")
    else ok tt

-- `leaseDurationSeconds`: `u64::from(nanos > 0)` is 1 or 0, and `i32::try_from(..)` falls back to
-- `i32::MAX`. The seconds of a `Duration` do not overflow here, since `validate` bounds them.
unfoldable pub lease_duration_secs : LeaderElectionConfig → ℕ
lease_duration_secs c =
    let secs =
      as_secs c.lease_duration + (if ltb 0 (subsec_nanos c.lease_duration) then 1 else 0) in
    if leb secs i32_max then secs else i32_max
