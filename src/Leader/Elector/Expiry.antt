-- ===== src/Leader/Elector/Expiry.antt =====
-- crates/koprs/src/leader.rs: when an attempt writes, and what it writes.
use koprs.Prelude.{
  ℕ, ◌+◌, ◌-◌, ◌≤◌, ◌<◌, ◌≡◌, ◌≢◌, refl, ap, ◌⊎◌, inl, inr, String, Bool, true, false, Option, none,
  some, List, [], ◌∷◌, leb, ℤ, pos, arith, opt_str_eq_iff, str_eq-false, if◌then◌else◌,
}
use koprs.Leader.Config.{LeaderElectionConfig, lease_duration_secs}
use koprs.Leader.Lease.{Lease, MicroTime, and_then_spec}
use koprs.Leader.Elector.Attempt.{
  held_by_other, LeaderElector, finished, replace, changed, opt_eq, stated_duration, observe,
  observed_expired, holder, holds, decide, unwrap_or, saturating_succ, next_lease, after_get,
}

abbrev version : Lease → Option ℕ
version lease = lease.metadata.resource_version

-- The duration that an elector takes from a lease.
abbrev pub term : LeaderElector → Lease → ℕ
term el lease =
    stated_duration el.config.lease_duration (and_then_spec (λ s. s.lease_duration_seconds) lease)

-- What an elector keeps of a lease that it first read at `at`.
abbrev pub seen : LeaderElector → Lease → ℕ → LeaderElector
seen el lease at = record el {
  observed = some (record {
    resource_version = version lease;
    observed_at = at;
    lease_duration = term el lease;
  });
}

opt_eq_refl : (o : Option ℕ) → opt_eq o o ≡ true
opt_eq_refl none = refl
opt_eq_refl (some n) = ground arith

pub observe-new :
    (el : LeaderElector) (lease : Lease) (at : ℕ)
    → changed el.observed (version lease) ≡ true
    → observe el lease at ≡ seen el lease at
unfolding observe
observe-new el lease at h = rw h

pub observe-old :
    (el : LeaderElector) (lease : Lease) (at : ℕ)
    → changed el.observed (version lease) ≡ false
    → observe el lease at ≡ el
unfolding observe
observe-old el lease at h = rw h

-- Reading the same version again moves nothing.
pub observe-seen :
    (el : LeaderElector) (lease : Lease) (at now : ℕ)
    → observe (seen el lease at) lease now ≡ seen el lease at
unfolding observe
observe-seen el lease at now = rw (opt_eq_refl (version lease))

-- A standby that reads the same lease at the given times.
pub standby : LeaderElector → Lease → List ℕ → LeaderElector
standby el lease [] = el
standby el lease (t ∷ ts) = standby (after_get el t t (some lease)).0 lease ts

after_get-seen :
    (el : LeaderElector) (lease : Lease) (at t : ℕ) (micro : MicroTime)
    → (after_get (seen el lease at) t micro (some lease)).0 ≡ seen el lease at
unfolding after_get
after_get-seen el lease at t micro = observe-seen el lease at t

standby-seen :
    (el : LeaderElector) (lease : Lease) (at : ℕ) (ts : List ℕ)
    → standby (seen el lease at) lease ts ≡ seen el lease at
unfolding standby
standby-seen el lease at [] = refl
standby-seen el lease at (t ∷ ts) =
    rw (after_get-seen el lease at t t) (standby-seen el lease at ts)

standby-first :
    (el : LeaderElector) (lease : Lease) (t0 : ℕ) (ts : List ℕ)
    → changed el.observed (version lease) ≡ true
    → standby el lease (t0 ∷ ts) ≡ seen el lease t0
unfolding standby after_get
standby-first el lease t0 ts h = rw (observe-new el lease t0 h) (standby-seen el lease t0 ts)

-- What an attempt plans for a lease that another replica holds.
other_plan :
    (el : LeaderElector) (lease : Lease) (other : String) (at t : ℕ) (micro : MicroTime)
    → holder lease ≡ some other
    → other ≢ el.config.identity
    → (after_get (seen el lease at) t micro (some lease)).1 ≡ (
        if leb (term el lease) (t - at)
        then replace (next_lease el.config micro false lease)
        else finished (held_by_other other))
unfolding after_get observed_expired
other_plan el lease other at t micro e ne =
    rw (observe-seen el lease at t, e, str_eq-false other el.config.identity ne) (ground arith)

-- A standby that first reads a lease of another replica at `t0`, and reads it unchanged at any
-- later times, reports the holder at each time before `t0` and the stated duration, and sends the
-- take-over at each time from then on.
pub standby_patience :
    (el : LeaderElector) (lease : Lease) (other : String) (t0 : ℕ) (ts : List ℕ) (t : ℕ)
    (micro : MicroTime)
    → changed el.observed (version lease) ≡ true
    → holder lease ≡ some other
    → other ≢ el.config.identity
    → t0 ≤ t
    → let plan = (after_get (standby el lease (t0 ∷ ts)) t micro (some lease)).1 in
      (t < t0 + term el lease → plan ≡ finished (held_by_other other))
      × (t0 + term el lease ≤ t → plan ≡ replace (next_lease el.config micro false lease))
standby_patience el lease other t0 ts t micro h e ne le =
    rw (standby-first el lease t0 ts h, other_plan el lease other t0 t micro e ne)
      (λ early. ground arith, λ late. ground arith)

abbrev transitions : Lease → ℤ
transitions lease = unwrap_or (and_then_spec (λ s. s.lease_transitions) lease) (pos 0)

decide-eq-replace :
    (found : Option String) (we_hold expired : Bool) (next sent : Lease)
    → decide found we_hold expired next ≡ replace sent
    → ((found ≡ none) ⊎ ((we_hold ≡ true) ⊎ (expired ≡ true))) × (sent ≡ next)
decide-eq-replace none we_hold expired next sent h = (inl refl, cc)
decide-eq-replace (some other) true expired next sent h = (inr (inl refl), cc)
decide-eq-replace (some other) false true next sent h = (inr (inr refl), cc)
decide-eq-replace (some other) false false next sent h = cc

own_guard :
    (c : LeaderElectionConfig) (existing : Lease) (expired : Bool)
    → ((holder existing ≡ none) ⊎ ((holds c existing ≡ true) ⊎ (expired ≡ true)))
    → (holder existing ≡ none) ⊎ ((holder existing ≡ some c.identity) ⊎ (expired ≡ true))
own_guard c existing expired (inl free) = inl free
own_guard c existing expired (inr (inl own)) =
    inr (inl ((opt_str_eq_iff (holder existing) (some c.identity)).0 own))
own_guard c existing expired (inr (inr late)) = inr (inr late)

-- An attempt that found a lease and sends a PUT found it free, its own, or expired; the lease that
-- it sends names this replica and the version that was read, states this replica's duration, and
-- counts a transition exactly if the replica did not hold the lease.
pub replace_guarded :
    (el : LeaderElector) (started : ℕ) (micro : MicroTime) (existing sent : Lease)
    → let step = after_get el started micro (some existing) in
      step.1 ≡ replace sent
      → ((holder existing ≡ none)
          ⊎ ((holder existing ≡ some el.config.identity)
              ⊎ (observed_expired step.0 started ≡ true)))
        × (version sent ≡ version existing)
        × (and_then_spec (λ s. s.holder_identity) sent ≡ some el.config.identity)
        × (and_then_spec (λ s. s.lease_duration_seconds) sent
            ≡ some (pos (lease_duration_secs el.config)))
        × (and_then_spec (λ s. s.lease_transitions) sent
            ≡ some (
                if holds el.config existing
                then transitions existing
                else saturating_succ (transitions existing)))
unfolding after_get next_lease
replace_guarded el started micro existing sent h =
    let (guard, same) = decide-eq-replace (holder existing) _ _ _ _ h in
    (
      own_guard el.config existing _ guard,
      ap version same,
      ap (and_then_spec (λ s. s.holder_identity)) same,
      ap (and_then_spec (λ s. s.lease_duration_seconds)) same,
      ap (and_then_spec (λ s. s.lease_transitions)) same,
    )
