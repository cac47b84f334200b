-- ===== src/Leader/Elector/Attempt.antt =====
-- crates/koprs/src/leader.rs: the observation record, one acquire-or-renew attempt, and `release`.
use koprs.Prelude.{
  ℕ, suc, zero, ◌+◌, ◌-◌, String, Bool, true, false, not, ◌&&◌, Option, none, some, ℤ, pos, negsuc,
  i32_max, try_u64, leb, ◌==◌, if◌then◌else◌, is_empty, opt_str_eq, Result, ok, err,
}
use koprs.Prelude.Tasks.{Task}
use koprs.Error.{KubeError, KubeGenericError, api, kube}
use koprs.Leader.Config.{LeaderElectionConfig, from_secs, lease_duration_secs}
use koprs.Leader.Lease.{Lease, ResourceVersion, MicroTime, build_lease, and_then_spec}

pub data Attempt : Type 0 where
  held : Attempt
  held_by_other : String → Attempt
  conflict : Attempt

pub record Observed : Type 0 where
  pub resource_version : Option ResourceVersion
  pub observed_at : ℕ
  pub lease_duration : ℕ

pub record LeaderElector : Type 0 where
  pub config : LeaderElectionConfig
  pub observed : Option Observed

abbrev pub opt_eq : Option ℕ → Option ℕ → Bool
opt_eq none none = true
opt_eq (some a) (some b) = a == b
opt_eq _ _ = false

unfoldable pub new : LeaderElectionConfig → LeaderElector
new c = record { config = c; observed = none }

-- `is_none_or(|o| o.resource_version != rv)`.
abbrev pub changed : Option Observed → Option ResourceVersion → Bool
changed none rv = true
changed (some o) rv = not (opt_eq o.resource_version rv)

-- The duration that the lease states, or the configured one.
abbrev pub stated_duration : ℕ → Option ℤ → ℕ
stated_duration own none = own
stated_duration own (some s) = elim (try_u64 s) [ none ↦ own | some n ↦ from_secs n ]

unfoldable pub observe : LeaderElector → Lease → ℕ → LeaderElector
observe el lease at =
    let rv = lease.metadata.resource_version in
    if changed el.observed rv
    then record el {
      observed = some (record {
        resource_version = rv;
        observed_at = at;
        lease_duration =
            stated_duration el.config.lease_duration
              (and_then_spec (λ s. s.lease_duration_seconds) lease);
      });
    }
    else el

-- `saturating_duration_since` is truncated subtraction.
abbrev pub expired_at : Option Observed → ℕ → Bool
expired_at none now = true
expired_at (some o) now = leb o.lease_duration (now - o.observed_at)

unfoldable pub observed_expired : LeaderElector → ℕ → Bool
observed_expired el now = expired_at el.observed now

-- `filter(|h| !h.is_empty())`.
abbrev pub non_empty : Option String → Option String
non_empty none = none
non_empty (some h) = if is_empty h then none else some h

abbrev pub holder : Lease → Option String
holder lease = non_empty (and_then_spec (λ s. s.holder_identity) lease)

-- `i32::saturating_add(1)`.
abbrev pub saturating_succ : ℤ → ℤ
saturating_succ (pos n) = if n == i32_max then pos n else pos (n + 1)
saturating_succ (negsuc zero) = pos 0
saturating_succ (negsuc (suc n)) = negsuc n

abbrev pub unwrap_or {ℓ} : {A : Type ℓ} → Option A → A → A
unwrap_or none d = d
unwrap_or (some a) d = a

-- What an attempt does after the GET: it is over, or it sends a POST or a PUT.
pub data Plan : Type 0 where
  finished : Attempt → Plan
  create : Lease → Plan
  replace : Lease → Plan

-- The lease that a replica writes when there is none.
unfoldable pub first_lease : LeaderElectionConfig → MicroTime → Lease
unfolding build_lease
first_lease c now_micro =
    build_lease c (some c.identity) (lease_duration_secs c) now_micro now_micro none (some (pos 0))

-- The lease that replaces `existing`.
unfoldable pub next_lease : LeaderElectionConfig → MicroTime → Bool → Lease → Lease
unfolding build_lease
next_lease c now_micro we_hold existing =
    let transitions = unwrap_or (and_then_spec (λ s. s.lease_transitions) existing) (pos 0) in
    build_lease c (some c.identity) (lease_duration_secs c)
      (if we_hold
        then unwrap_or (and_then_spec (λ s. s.acquire_time) existing) now_micro
        else now_micro)
      now_micro existing.metadata.resource_version
      (some (if we_hold then transitions else saturating_succ transitions))

abbrev pub holds : LeaderElectionConfig → Lease → Bool
holds c lease = opt_str_eq (holder lease) (some c.identity)

-- `if let Some(other) = holder && !we_hold && !self.observed_expired(started)`.
abbrev pub decide : Option String → Bool → Bool → Lease → Plan
decide none we_hold expired lease = replace lease
decide (some other) we_hold expired lease =
    if not we_hold && not expired then finished (held_by_other other) else replace lease

-- From the answer of the GET to the next request.
unfoldable pub after_get : LeaderElector → ℕ → MicroTime → Option Lease → LeaderElector × Plan
unfolding observe observed_expired
after_get el started now_micro none = (el, create (first_lease el.config now_micro))
after_get el started now_micro (some existing) =
    let el' = observe el existing started in
    let we_hold = holds el.config existing in
    (
      el',
      decide (holder existing) we_hold (observed_expired el' started)
          (next_lease el.config now_micro we_hold existing),
    )

-- From the answer of the POST or PUT to the result.
unfoldable pub after_write :
    LeaderElector → ℕ → Result KubeError Lease → Result KubeGenericError Attempt × LeaderElector
unfolding observe
after_write el started (ok written) = (ok held, observe el written started)
after_write el started (err (api code)) =
    (if code == 409 then ok conflict else err (kube (api code)), el)
after_write el started (err e) = (err (kube e), el)

-- The calls of `Api<Lease>`.
pub record LeaseApi (W : Type 0) : Type 0 where
  pub get_opt : String → Task W KubeError (Option Lease)
  pub create : Lease → Task W KubeError Lease
  pub replace : String → Lease → Task W KubeError Lease

module _ {W : Type 0} (a : LeaseApi W) where
  -- The write of a plan, and what follows it.
  abbrev pub carry_out :
      LeaderElector × Plan → ℕ → W → (Result KubeGenericError Attempt × LeaderElector) × W
  carry_out (el, finished r) started w = ((ok r, el), w)
  carry_out (el, create lease) started w =
      (after_write el started (a.create lease w).0, (a.create lease w).1)
  carry_out (el, replace lease) started w = (
    after_write el started (a.replace el.config.name lease w).0,
    (a.replace el.config.name lease w).1,
  )

  abbrev pub answer_get :
      LeaderElector
      → ℕ
      → MicroTime
      → Result KubeError (Option Lease)
      → W
      → (Result KubeGenericError Attempt × LeaderElector) × W
  answer_get el started now_micro (err e) w = ((err (kube e), el), w)
  answer_get el started now_micro (ok found) w =
      carry_out (after_get el started now_micro found) started w

  unfoldable pub try_acquire_or_renew :
      LeaderElector → ℕ → MicroTime → W → (Result KubeGenericError Attempt × LeaderElector) × W
  unfolding after_get after_write
  try_acquire_or_renew el started now_micro w =
      answer_get el started now_micro (a.get_opt el.config.name w).0 (a.get_opt el.config.name w).1

  -- The lease that `release` writes.
  abbrev pub released_lease : LeaderElectionConfig → MicroTime → Lease → Lease
  released_lease c now_micro existing =
      build_lease c none 1 (unwrap_or (and_then_spec (λ s. s.acquire_time) existing) now_micro)
        now_micro existing.metadata.resource_version
        (and_then_spec (λ s. s.lease_transitions) existing)

  abbrev release_found :
      LeaderElectionConfig
      → MicroTime
      → Result KubeError (Option Lease)
      → W
      → Result KubeGenericError (Unit {0}) × W
  release_found c now_micro (err e) w = (err (kube e), w)
  release_found c now_micro (ok none) w = (ok tt, w)
  release_found c now_micro (ok (some existing)) w =
      if opt_str_eq (and_then_spec (λ s. s.holder_identity) existing) (some c.identity)
      then (
        elim (a.replace c.name (released_lease c now_micro existing) w).0 [
          | ok l ↦ ok tt
          | err e ↦ err (kube e)
        ],
        (a.replace c.name (released_lease c now_micro existing) w).1,
      )
      else (ok tt, w)

  unfoldable pub release : LeaderElector → MicroTime → W → Result KubeGenericError (Unit {0}) × W
  unfolding build_lease
  release el now_micro w =
      release_found el.config now_micro (a.get_opt el.config.name w).0
        (a.get_opt el.config.name w).1
