-- ===== src/Leader/Cluster/Examples.antt =====
-- crates/koprs/src/leader.rs: a run of replicas with the default settings. Replica `i` has the
-- identity of `i + 1` letters.

use koprs.Prelude.{ℕ, zero, suc, ◌+◌, ◌<◌, ◌≡◌, ◌≢◌, refl, ap, String, none, some, arith, ok}
use koprs.Leader.Config.{LeaderElectionConfig, from_secs, validate, lease_duration_secs}
use koprs.Leader.Config.Bounds.{validate_iff}
use koprs.Leader.Lease.{Lease}
use koprs.Leader.Elector.Attempt.{Plan, create, after_get, after_write, first_lease}
use koprs.Leader.Elector.Attempt as Attempt
use koprs.Leader.Cluster.{
  Cluster, resting, reading, Step, begin, read, accept, Reach, here, next, start, set, answered,
  written, versioned, update,
}
use koprs.Leader.Cluster.Invariant.{IsSafe, tenure}
use koprs.Leader.Cluster.Exclusion.{mutual_exclusion}

abbrev identity : ℕ → String
identity zero = "a"
identity (suc i) = String.◌∷◌ "a" (identity i)

abbrev letters : String → ℕ
letters String.[] = 0
letters (String.◌∷◌ c s) = suc (letters s)

letters-identity : (i : ℕ) → letters (identity i) ≡ suc i
letters-identity zero = refl
letters-identity (suc i) = ap suc (letters-identity i)

identity-inj : (i j : ℕ) → identity i ≡ identity j → i ≡ j
identity-inj i j h = omega (arith, letters-identity i, letters-identity j, ap letters h)

identity≢empty : (i : ℕ) → identity i ≢ ""
identity≢empty i h = omega (arith, letters-identity i, ap letters h)

abbrev config : ℕ → LeaderElectionConfig
config i = record {
  namespace = "default";
  name = "lock";
  identity = identity i;
  lease_duration = 15000000000;
  renew_deadline = 10000000000;
  retry_period = 2000000000;
}

abbrev latency : ℕ
latency = 2000000000

config-accepted : (i : ℕ) → validate (config i) ≡ ok tt
config-accepted i = (validate_iff (config i)).1 (record {
  identified = identity≢empty i;
  retries = omega arith;
  retry_first = omega arith;
  renew_first = omega arith;
  at_least = omega arith;
  at_most = omega arith;
})

config-margin :
    (i : ℕ) → tenure config latency i + latency < from_secs (lease_duration_secs (config i))
unfolding lease_duration_secs
config-margin i = omega arith

config-IsSafe : IsSafe config latency
config-IsSafe = record { valid = config-accepted; distinct = identity-inj; margin = config-margin }

abbrev initial : Cluster
initial = start config latency 0

abbrev asking : Cluster
asking = set initial 0 (record (initial.replicas 0) { phase = reading 0 })

abbrev first : Lease
first = first_lease (config 0) 0

abbrev deciding : Cluster
deciding =
    set asking 0
      (answered config latency 0 0 none 0 (after_get (asking.replicas 0).elector 0 0 none))

abbrev leading : Cluster
leading = record deciding {
  server = written deciding.server first 0 0;
  replicas = update deciding.replicas 0 (record {
    elector =
        (after_write (deciding.replicas 0).elector 0
          (ok (versioned first (suc deciding.server.version)))).1;
    leads = some 0;
    phase = resting (1000 + (config 0).retry_period);
  });
}

-- The second replica tries while the first one leads.
abbrev challenged : Cluster
challenged = set leading 1 (record (leading.replicas 1) { phase = reading 0 })

abbrev refused : Cluster
refused = set challenged 1 (
    answered config latency 1 0 none 0
      (after_get (challenged.replicas 1).elector 0 0 challenged.server.stored))

asks : Step config latency initial asking
asks = begin 0 0 refl (omega arith) (λ q h. cc)

finds_none : Step config latency asking deciding
finds_none = read 0 0 0 refl (omega arith)

takes_lead : Step config latency deciding leading
unfolding after_get first_lease Attempt.new
takes_lead = accept 0 0 1000 (create first) first refl refl (omega arith) (omega arith)

second_asks : Step config latency leading challenged
second_asks = begin 1 0 refl (omega arith) (λ q h. cc)

second_waits : Step config latency challenged refused
second_waits = read 1 0 0 refl (omega arith)

run : Reach config latency initial refused
run = next (next (next (next (next here asks) finds_none) takes_lead) second_asks) second_waits

mutual_exclusion_example : ◌≡◌ {A = ℕ} 0 0
unfolding after_get after_write
mutual_exclusion_example =
    mutual_exclusion config latency config-IsSafe 0 refused run 0 0 0 0 refl refl
