-- ===== src/Controller/Settings.antt =====
-- crates/koprs/src/controller.rs: the settings that an election runs with.
use koprs.Prelude.Results.{err_ok}
use koprs.Prelude.{
  ◌≡◌, ◌↔◌, refl, sym, subst, String, false, Option, none, some, is_empty, Result, ok, err, arith,
  eq_iff, Bool-cases, inl, inr,
}
use koprs.Prelude.Fallible.{◌>>◌}
use koprs.Error.{KubeGenericError}
use koprs.Leader.Config.{LeaderElectionConfig, validate}
use koprs.Leader.Config.Bounds.{IsValid, validate_iff}
use koprs.Controller.Builder.{
  LeaderElectionTimings, ControllerBuilder, with_identity, with_timings, checked, resolve_parts,
  resolve_leader_election,
}

-- The configuration that a builder asks for, if it asks for one.
abbrev pub requested :
    Option LeaderElectionConfig
    → Option LeaderElectionTimings
    → Option String
    → Option LeaderElectionConfig
requested none timings identity = none
requested (some c) none none = some c
requested (some c) none (some i) = some (record {
  namespace = c.namespace;
  name = c.name;
  identity = i;
  lease_duration = c.lease_duration;
  renew_deadline = c.renew_deadline;
  retry_period = c.retry_period;
})
requested (some c) (some t) none = some (record {
  namespace = c.namespace;
  name = c.name;
  identity = c.identity;
  lease_duration = t.lease_duration;
  renew_deadline = t.renew_deadline;
  retry_period = t.retry_period;
})
requested (some c) (some t) (some i) = some (record {
  namespace = c.namespace;
  name = c.name;
  identity = i;
  lease_duration = t.lease_duration;
  renew_deadline = t.renew_deadline;
  retry_period = t.retry_period;
})

requested_lem :
    (c : LeaderElectionConfig) (timings : Option LeaderElectionTimings) (identity : Option String)
    → requested (some c) timings identity ≡ some (with_timings timings (with_identity identity c))
requested_lem c none none = refl
requested_lem c none (some i) = refl
requested_lem c (some t) none = refl
requested_lem c (some t) (some i) = refl

-- A valid request, or no request and no timings.
abbrev pub Accepts :
    Option LeaderElectionConfig
    → Option LeaderElectionTimings
    → Option LeaderElectionConfig
    → Type 0
Accepts none timings none = timings ≡ none
Accepts none timings (some c) = ⊥
Accepts (some r) timings none = ⊥
Accepts (some r) timings (some c) = (r ≡ c) × IsValid c

never :
    (r : Result KubeGenericError (Unit {0})) (c : LeaderElectionConfig)
    → (r >> ok (some c)) ≡ ok none
    → ⊥
never (ok u) c h = cc
never (err e) c h = cc

identity_set : (c : LeaderElectionConfig) → IsValid c → is_empty c.identity ≡ false
identity_set c v = ground (arith, eq_iff c.identity "")

pass : (c : LeaderElectionConfig) → IsValid c → checked c ≡ ok (some c)
unfolding checked
pass c v = rw (identity_set c v, (validate_iff c).1 v)

after_check :
    (r : Result KubeGenericError (Unit {0})) (c d : LeaderElectionConfig)
    → (r >> ok (some c)) ≡ ok (some d)
    → (r ≡ ok tt) × (c ≡ d)
after_check (ok u) c d h = (refl, cc)
after_check (err e) c d h = cc

passed : (c d : LeaderElectionConfig) → checked c ≡ ok (some d) → (c ≡ d) × IsValid d
unfolding checked
passed c d h = elim (Bool-cases (is_empty c.identity)) [
  | inl empty ↦ absurd (err_ok (rw empty at h))
  | inr named ↦
      let (valid, same) = after_check (validate c) c d (rw named at h) in
      (same, subst (λ x. IsValid x) same ((validate_iff c).0 valid))
]

checked-some : (c : LeaderElectionConfig) → checked c ≡ ok none → ⊥
unfolding checked
checked-some c h = elim (Bool-cases (is_empty c.identity)) [
  | inl empty ↦ err_ok (rw empty at h)
  | inr named ↦ never (validate c) c (rw named at h)
]

resolve_parts_iff :
    (election : Option LeaderElectionConfig) (timings : Option LeaderElectionTimings)
    (identity : Option String) (result : Option LeaderElectionConfig)
    → (resolve_parts election timings identity ≡ ok result)
      ↔ Accepts (requested election timings identity) timings result
resolve_parts_iff none none identity none = (λ h. refl, λ h. refl)
resolve_parts_iff none none identity (some c) = (λ h. cc, λ h. absurd h)
resolve_parts_iff none (some t) identity none = (λ h. cc, λ h. cc)
resolve_parts_iff none (some t) identity (some c) = (λ h. cc, λ h. absurd h)
resolve_parts_iff (some c) timings identity none =
    rw (requested_lem c timings identity) (λ h. checked-some _ h, λ h. absurd h)
resolve_parts_iff (some c) timings identity (some d) =
    rw (requested_lem c timings identity)
      (λ h. passed _ d h, λ (same, v). subst (λ x. checked x ≡ ok (some d)) (sym same) (pass d v))

module _ {Ctl Watch : Type 0} where
  -- A builder runs without an election exactly when neither `leader_election` nor its timings were
  -- set; it runs an election exactly with the settings that were asked for, the identity and the
  -- timings over those of `leader_election`, and only if they are valid; every other builder is
  -- refused.
  pub resolve_leader_election_iff :
      (b : ControllerBuilder Ctl Watch) (result : Option LeaderElectionConfig)
      → (resolve_leader_election b ≡ ok result)
        ↔ Accepts (requested b.election b.timings b.identity) b.timings result
  unfolding resolve_leader_election
  resolve_leader_election_iff b result = resolve_parts_iff b.election b.timings b.identity result
