-- ===== src/Leader/Cluster/Invariant.antt =====
-- crates/koprs/src/leader.rs: the invariant of the competing replicas.
use koprs.Prelude.{ℕ, ◌+◌, ◌≤◌, ◌<◌, ◌≡◌, ◌≢◌, refl, Option, none, some, pos, ok, arith}
use koprs.Leader.Config.{LeaderElectionConfig, from_secs, lease_duration_secs, validate}
use koprs.Leader.Lease.{Lease, ResourceVersion, and_then_spec}
use koprs.Leader.Elector.Attempt.{Observed, finished, create, replace, holder, new}
use koprs.Leader.Cluster.{Phase, resting, reading, writing, Replica, Server, Cluster, start}

module _ (config : ℕ → LeaderElectionConfig) (latency : ℕ) where
  -- What replica `i` writes into a lease as its duration.
  abbrev pub term : ℕ → ℕ
  term i = from_secs (lease_duration_secs (config i))

  -- How long a leader may go on after the start of its last renewal.
  abbrev pub tenure : ℕ → ℕ
  tenure i = (config i).renew_deadline + (config i).retry_period

  -- The settings that keep two leaders apart: accepted by `validate`, distinct identities, and
  -- tenures that end, with a margin of `latency`, before the written duration does.
  pub record IsSafe : Type 0 where
    pub valid : (i : ℕ) → validate (config i) ≡ ok tt
    pub distinct : (i j : ℕ) → (config i).identity ≡ (config j).identity → i ≡ j
    pub margin : (i : ℕ) → tenure i + latency < term i

  -- A lease that replica `i` wrote.
  abbrev pub IsOf : ℕ → Lease → Type 0
  IsOf i l =
      (holder l ≡ some (config i).identity)
      × (and_then_spec (λ s. s.lease_duration_seconds) l
          ≡ some (pos (lease_duration_secs (config i))))

  abbrev pub StoredOk : ResourceVersion → ℕ → Option Lease → Type 0
  StoredOk version owner none = Unit {0}
  StoredOk version owner (some l) = IsOf owner l × (l.metadata.resource_version ≡ some version)

  pub record ServerOk (now : ℕ) (sv : Server) : Type 0 where
    pub stamped : sv.stamp ≤ now
    pub stored : StoredOk sv.version sv.owner sv.stored

  -- A version was given out, and if it is the current one and another replica's, `P` holds.
  abbrev pub Knows : ℕ → Server → Type 0 → Option ResourceVersion → Type 0
  Knows i sv P none = Unit {0}
  Knows i sv P (some v) = (v ≤ sv.version) × (v ≡ sv.version → sv.owner ≢ i → P)

  abbrev pub ObservedOk : ℕ → Server → Option Observed → Type 0
  ObservedOk i sv none = Unit {0}
  ObservedOk i sv (some o) =
      Knows i sv ((sv.stamp ≤ o.observed_at + latency) × (o.lease_duration ≡ term sv.owner))
        o.resource_version

  -- A write that takes over another replica's lease was decided after that lease ran out.
  abbrev pub PhaseOk : ℕ → ℕ → Server → Phase → Type 0
  PhaseOk i now sv (resting wake) = Unit {0}
  PhaseOk i now sv (reading started) = started ≤ now
  PhaseOk i now sv (writing started (finished a)) = started ≤ now
  PhaseOk i now sv (writing started (create l)) = (started ≤ now) × IsOf i l
  PhaseOk i now sv (writing started (replace l)) =
      (started ≤ now)
      × IsOf i l
      × Knows i sv (sv.stamp + term sv.owner ≤ started + latency) l.metadata.resource_version

  -- The timers of a leader.
  abbrev pub InTime : ℕ → ℕ → ℕ → Phase → Type 0
  InTime i now q (resting wake) = (now ≤ wake) × (wake ≤ q + tenure i)
  InTime i now q (reading started) = (q ≤ started) × (now ≤ q + (config i).renew_deadline)
  InTime i now q (writing started p) = (q ≤ started) × (now ≤ q + (config i).renew_deadline)

  -- A leader's lease is the stored one, written after the start of its last renewal.
  abbrev pub LeadOk : ℕ → ℕ → Server → Option ℕ → Phase → Type 0
  LeadOk i now sv none p = Unit {0}
  LeadOk i now sv (some q) p =
      (sv.owner ≡ i) × (sv.stored ≢ none) × (q ≤ sv.stamp) × InTime i now q p

  pub record ReplicaOk (i now : ℕ) (sv : Server) (r : Replica) : Type 0 where
    pub same : r.elector.config ≡ config i
    pub observed : ObservedOk i sv r.elector.observed
    pub phase : PhaseOk i now sv r.phase
    pub lead : LeadOk i now sv r.leads r.phase

  pub record Inv (s : Cluster) : Type 0 where
    pub server : ServerOk s.now s.server
    pub replicas : (i : ℕ) → ReplicaOk i s.now s.server (s.replicas i)

  pub start-Inv : (t : ℕ) → Inv (start config latency t)
  unfolding new
  start-Inv t = record {
    server = record { stamped = omega arith; stored = tt };
    replicas = λ i. record { same = refl; observed = tt; phase = tt; lead = tt };
  }
