-- ===== src/Leader/Examples.antt =====
-- crates/koprs/src/leader.rs: concrete runs of the elector.

use koprs.Prelude.{
  ℕ, ◌+◌, ◌≤◌, ◌<◌, ◌≡◌, ◌≢◌, ◌↔◌, ◌⊎◌, refl, sym, String, true, false, true≢false, eq_iff, none,
  some, List, [], ◌∷◌, pos, ok, err, arith, i32_max, if◌then◌else◌,
}
use koprs.Error.{client}
use koprs.Leader.Config.{LeaderElectionConfig, from_secs, new, validate, lease_duration_secs}
use koprs.Leader.Config.Bounds.{IsValid, validate_iff, lease_duration_secs_bounds}
use koprs.Leader.Lease.{Lease, and_then_spec}
use koprs.Leader.Elector.Attempt.{
  LeaderElector, LeaseApi, finished, held_by_other, replace, holder, holds, observed_expired,
  saturating_succ, after_get, next_lease,
}
use koprs.Leader.Elector.Loops.{Round, renewing, lost, renew_rounds, renew_until_lost}
use koprs.Leader.Elector.Expiry.{term, standby, standby_patience, replace_guarded}
use koprs.Leader.Elector.Renewal.{InTime, renew_until_lost-InTime}
use koprs.Leader.Elector.CutOff.{
  HasLost, IsCutOff, quick, too_late, cut_off_gives_up, outlives_lease,
}

abbrev ours : LeaderElectionConfig
ours = record {
  namespace = "default";
  name = "lock";
  identity = "a";
  lease_duration = 15000000000;
  renew_deadline = 14000000000;
  retry_period = 13000000000;
}

new_defaults :
    new "default" "lock" "a"
    ≡ record ours { renew_deadline = 10000000000; retry_period = 2000000000 }
unfolding new
new_defaults = refl

ours-accepted : validate ours ≡ ok tt
unfolding validate
ours-accepted = refl

validate_iff_example : (validate ours ≡ ok tt) ↔ IsValid ours
validate_iff_example = validate_iff ours

lease_duration_secs_bounds_example :
    (from_secs (lease_duration_secs ours) < ours.lease_duration + from_secs 1)
    × ((ours.lease_duration ≤ from_secs (lease_duration_secs ours))
        ↔ (ours.lease_duration ≤ from_secs i32_max))
lease_duration_secs_bounds_example = lease_duration_secs_bounds ours ours-accepted

abbrev fresh : LeaderElector
fresh = record { config = ours; observed = none }

-- A lease of another replica.
abbrev theirs : Lease
theirs = record {
  metadata = record { name = some "lock"; namespace = some "default"; resource_version = some 7 };
  spec = some (record {
    holder_identity = some "b";
    lease_duration_seconds = some (pos 15);
    acquire_time = some 1;
    renew_time = some 2;
    lease_transitions = some (pos 0);
  });
}

other_name : ◌≢◌ {A = String} "b" "a"
other_name h = true≢false (sym ((eq_iff "b" "a").1 h))

standby_patience_example :
    let plan = (after_get (standby fresh theirs (5 ∷ 9 ∷ [])) 16000000000 0 (some theirs)).1 in
    (16000000000 < 5 + term fresh theirs → plan ≡ finished (held_by_other "b"))
    × (5 + term fresh theirs ≤ 16000000000 → plan ≡ replace (next_lease ours 0 false theirs))
standby_patience_example =
    standby_patience fresh theirs "b" 5 (9 ∷ []) 16000000000 0 refl refl other_name (omega arith)

abbrev watching : LeaderElector
watching = record fresh {
  observed =
      some (record { resource_version = some 7; observed_at = 0; lease_duration = 15000000000 });
}

take_over :
    (after_get watching 16000000000 3 (some theirs)).1 ≡ replace (next_lease ours 3 false theirs)
unfolding after_get
take_over = refl

replace_guarded_example :
    let step = after_get watching 16000000000 3 (some theirs) in
    let sent = next_lease ours 3 false theirs in
    ((holder theirs ≡ none)
      ⊎ ((holder theirs ≡ some "a") ⊎ (observed_expired step.0 16000000000 ≡ true)))
    × (sent.metadata.resource_version ≡ some 7)
    × (and_then_spec (λ s. s.holder_identity) sent ≡ some "a")
    × (and_then_spec (λ s. s.lease_duration_seconds) sent ≡ some (pos (lease_duration_secs ours)))
    × (and_then_spec (λ s. s.lease_transitions) sent
        ≡ some (if holds ours theirs then pos 0 else saturating_succ (pos 0)))
replace_guarded_example =
    replace_guarded watching 16000000000 3 theirs (next_lease ours 3 false theirs) take_over

-- A server that cannot be reached.
abbrev down : LeaseApi (Unit {0})
down = record {
  get_opt = λ name w. (err (client "down"), w);
  create = λ l w. (err (client "down"), w);
  replace = λ name l w. (err (client "down"), w);
}

down-IsCutOff : IsCutOff down "lock"
down-IsCutOff w = (client "down", refl)

abbrev rounds : List Round
rounds = quick down ∷ quick down ∷ quick down ∷ []

renew_until_lost-InTime_example : InTime down ours (renew_until_lost down watching tt 1000 rounds)
renew_until_lost-InTime_example =
    renew_until_lost-InTime down watching tt 1000 rounds (omega arith) (omega arith)

outlives_lease_example :
    (stop : ℕ) × (renew_rounds down (renewing watching tt 5 5) (quick down ∷ quick down ∷ [])
      ≡ lost 5 stop (too_late down))
    × (5 + ours.lease_duration ≤ stop)
outlives_lease_example = outlives_lease down watching tt 5 ours-accepted (omega arith) down-IsCutOff

cut_off_gives_up_example : HasLost down (renew_until_lost down watching tt 1000 rounds) 0
cut_off_gives_up_example =
    cut_off_gives_up down watching tt 1000 rounds down-IsCutOff (omega arith) (omega arith)
