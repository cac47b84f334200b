-- ===== src/Leader/Cluster.antt =====
-- crates/koprs/src/leader.rs: several replicas that compete for one lease. A replica runs the code
-- of `Elector`: it sleeps, sends the GET, decides by `after_get`, sends the write, and learns its
-- outcome by `after_write`; the steps of different replicas interleave in any order. `now` is the
-- common time: the monotonic clocks of the nodes run at the same rate, and their offsets do not
-- matter, since a replica only compares its own readings. The server serialises the calls and
-- accepts a PUT only if its `resourceVersion` is the stored one. Nobody else writes the lease, a
-- request that was dropped by a timeout has landed before or never lands, and timers fire in time.
-- `latency` bounds the time between the start of an attempt and the answer to its GET.
pub mod Invariant
pub mod Local
pub mod Reading
pub mod Writing
pub mod Exclusion
pub mod Examples
use koprs.Prelude.{
  ℕ, suc, ◌+◌, ◌≤◌, ◌<◌, ◌≡◌, ◌≢◌, Option, none, some, ◌==◌, if◌then◌else◌, ok, err,
}
use koprs.Leader.Config.{LeaderElectionConfig}
use koprs.Leader.Lease.{Lease, MicroTime, ResourceVersion}
use koprs.Leader.Elector.Attempt.{
  LeaderElector, Plan, finished, create, replace, after_get, after_write, opt_eq, new,
}

pub data Phase : Type 0 where
  resting : ℕ → Phase
  reading : ℕ → Phase
  writing : ℕ → Plan → Phase

-- `leads` is the start of the last renewal while the controller runs.
pub record Replica : Type 0 where
  pub elector : LeaderElector
  pub leads : Option ℕ
  pub phase : Phase

-- The lease object and the last version given out; when and by whom it was written is only for the
-- proofs.
pub record Server : Type 0 where
  pub stored : Option Lease
  pub version : ResourceVersion
  pub stamp : ℕ
  pub owner : ℕ

pub record Cluster : Type 0 where
  pub now : ℕ
  pub server : Server
  pub replicas : ℕ → Replica

-- The lease that the server stores for a write, if it accepts it.
abbrev pub accepted : Option Lease → Plan → Option Lease
accepted none (create l) = some l
accepted (some cur) (replace l) =
    if opt_eq l.metadata.resource_version cur.metadata.resource_version then some l else none
accepted _ _ = none

abbrev pub versioned : Lease → ResourceVersion → Lease
versioned l v = record l { metadata = record l.metadata { resource_version = some v } }

-- The server after replica `i` wrote `l` at `t`.
abbrev pub written : Server → Lease → ℕ → ℕ → Server
written sv l i t = record {
  stored = some (versioned l (suc sv.version));
  version = suc sv.version;
  stamp = t;
  owner = i;
}

abbrev pub update {ℓ} : {A : Type ℓ} → (ℕ → A) → ℕ → A → ℕ → A
update f i a j = if i == j then a else f j

abbrev pub set : Cluster → ℕ → Replica → Cluster
set s i r = record s { replicas = update s.replicas i r }

module _ (config : ℕ → LeaderElectionConfig) (latency : ℕ) where
  -- Until when a leader may stay in a phase without a step.
  abbrev pub due : ℕ → ℕ → Phase → ℕ
  due i q (resting wake) = wake
  due i q (reading started) = q + (config i).renew_deadline
  due i q (writing started p) = q + (config i).renew_deadline

  -- Until when an attempt that started at `started` may still end.
  abbrev pub limit : ℕ → Option ℕ → ℕ → ℕ
  limit i none started = started + (config i).renew_deadline
  limit i (some q) started = q + (config i).renew_deadline

  -- A replica whose GET was answered. `HeldByOther` ends the leadership.
  abbrev pub answered : ℕ → ℕ → Option ℕ → ℕ → LeaderElector × Plan → Replica
  answered i now leads started (el, finished a) = record {
    elector = el;
    leads = none;
    phase = resting (now + (config i).retry_period);
  }
  answered i now leads started (el, p) = record {
    elector = el;
    leads = leads;
    phase = writing started p;
  }

  pub data Step (s : Cluster) : Cluster → Type 0 where
    -- Time passes, but no leader misses its timer.
    tick :
        (t : ℕ)
        → s.now ≤ t
        → ((i q : ℕ) → (s.replicas i).leads ≡ some q → t ≤ due i q (s.replicas i).phase)
        → Step s (record s { now = t })
    -- An attempt starts; a leader checks its deadline first.
    begin :
        (i wake : ℕ)
        → (s.replicas i).phase ≡ resting wake
        → wake ≤ s.now
        → ((q : ℕ) → (s.replicas i).leads ≡ some q → s.now < q + (config i).renew_deadline)
        → Step s (set s i (record (s.replicas i) { phase = reading s.now }))
    -- The server answers the GET.
    read :
        (i started : ℕ) (micro : MicroTime)
        → (s.replicas i).phase ≡ reading started
        → s.now ≤ started + latency
        → Step s (
            set s i (
              answered i s.now
                (s.replicas i).leads
                started
                (after_get (s.replicas i).elector started micro s.server.stored)))
    -- An error or a conflict: the attempt is over.
    fail :
        (i : ℕ) (r : Replica)
        → r ≡ record (s.replicas i) { phase = resting (s.now + (config i).retry_period) }
        → ((wake : ℕ) → (s.replicas i).phase ≢ resting wake)
        → Step s (set s i r)
    -- A leader stops, for a deadline or a shutdown.
    stop :
        (i wake : ℕ)
        → Step s (set s i (record (s.replicas i) { leads = none; phase = resting wake }))
    -- The server accepts a write, and the replica learns of it at `ack`.
    accept :
        (i started ack : ℕ) (p : Plan) (l : Lease)
        → (s.replicas i).phase ≡ writing started p
        → accepted s.server.stored p ≡ some l
        → s.now ≤ ack
        → ack ≤ limit i (s.replicas i).leads started
        → Step s (record s {
          server = written s.server l i s.now;
          replicas = update s.replicas i (record {
            elector =
                (after_write
                  (s.replicas i).elector
                  started
                  (ok (versioned l (suc s.server.version)))).1;
            leads = some started;
            phase = resting (ack + (config i).retry_period);
          });
        })
    -- The server accepts a write, and the answer is lost.
    accept_unseen :
        (i started wake : ℕ) (p : Plan) (l : Lease)
        → (s.replicas i).phase ≡ writing started p
        → accepted s.server.stored p ≡ some l
        → s.now ≤ wake
        → wake ≤ limit i (s.replicas i).leads started + (config i).retry_period
        → Step s (record s {
          server = written s.server l i s.now;
          replicas = update s.replicas i (record (s.replicas i) { phase = resting wake });
        })

  pub data Reach (s : Cluster) : Cluster → Type 0 where
    here : Reach s s
    next : {t u : Cluster} → Reach s t → Step t u → Reach s u

  -- No lease, and no replica has done anything.
  abbrev pub start : ℕ → Cluster
  start t = record {
    now = t;
    server = record { stored = none; version = 0; stamp = 0; owner = 0 };
    replicas = λ i. record { elector = new (config i); leads = none; phase = resting t };
  }
