-- ===== src/Leader/Config/Bounds.antt =====
-- crates/koprs/src/leader.rs: what `validate` accepts, and the duration that is written.
use koprs.Prelude.{◌+◌, ◌≤◌, ◌<◌, ◌≡◌, ◌≢◌, ◌↔◌, arith, i32_max, ok, eq_iff}
use koprs.Leader.Config.{LeaderElectionConfig, from_secs, as_secs, validate, lease_duration_secs}

-- What a configuration must satisfy.
pub record IsValid (c : LeaderElectionConfig) : Type 0 where
  pub identified : c.identity ≢ ""
  pub retries : 0 < c.retry_period
  pub retry_first : c.retry_period < c.renew_deadline
  pub renew_first : c.renew_deadline < c.lease_duration
  pub at_least : from_secs 1 ≤ c.lease_duration
  pub at_most : as_secs c.lease_duration ≤ i32_max

-- `validate` accepts exactly the configurations with an identity, with
-- 0 < retry_period < renew_deadline < lease_duration, and with a lease duration of at least one
-- second whose whole seconds fit an `i32`.
pub validate_iff : (c : LeaderElectionConfig) → (validate c ≡ ok tt) ↔ IsValid c
unfolding validate
validate_iff c = (λ h. sound h, λ v. complete v)
  where
    sound : validate c ≡ ok tt → IsValid c
    sound h = record {
      identified = ground (arith, eq_iff c.identity "");
      retries = ground arith;
      retry_first = ground arith;
      renew_first = ground arith;
      at_least = ground arith;
      at_most = ground arith;
    }

    complete : IsValid c → validate c ≡ ok tt
    complete v = ground (arith, eq_iff c.identity "")

-- Of an accepted configuration, the written duration is less than a second longer than the
-- configured one; and it is at least the configured one exactly when that is at most `i32::MAX`
-- seconds.
pub lease_duration_secs_bounds :
    (c : LeaderElectionConfig)
    → validate c ≡ ok tt
    → (from_secs (lease_duration_secs c) < c.lease_duration + from_secs 1)
      × ((c.lease_duration ≤ from_secs (lease_duration_secs c))
          ↔ (c.lease_duration ≤ from_secs i32_max))
unfolding lease_duration_secs
lease_duration_secs_bounds c h =
    let v = (validate_iff c).0 h in
    (ground (arith, v.at_most), (λ p. ground (arith, v.at_most), λ p. ground (arith, v.at_most)))
