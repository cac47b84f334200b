-- ===== src/Controller/Examples.antt =====
-- crates/koprs/src/controller.rs: concrete builders and runs.
use koprs.Prelude.{
  ℕ, suc, ◌≤◌, ◌≡◌, ◌↔◌, refl, String, Bool, true, false, Option, none, some, List, [], ◌∷◌, ok,
  err, arith, if◌then◌else◌,
}
use koprs.Observability as Observability
use koprs.Observability.{Metrics}
use koprs.Leader.Config.{LeaderElectionConfig, validate}
use koprs.Leader.Lease.{Lease}
use koprs.Leader.Elector.Attempt.{LeaseApi}
use koprs.Leader.Elector.Freshness.{Versions}
use koprs.Controller.Builder.{ControllerBuilder, resolve_leader_election}
use koprs.Leader.Elector.Loops.{before_get, before_write}
use koprs.Controller.Settings.{requested, Accepts, resolve_leader_election_iff}
use koprs.Controller.Run.{Script, run}
use koprs.Controller.Leadership.{Runs, run-Runs}
use koprs.Controller.Reconcile.{requeue, await_change, Reconciler, Call, reconcile_all}
use koprs.Controller.Counting.{labels_of, Counted, reconcile_all-Counted}

-- A builder that asks for an election with its own timings.
abbrev electing : ControllerBuilder (Unit {0}) (Unit {0})
electing = record {
  watch_settings = tt;
  configure = none;
  health = some 8081;
  metrics = none;
  graceful = true;
  timeout = none;
  election = some (record {
    namespace = "default";
    name = "lock";
    identity = "pod-0";
    lease_duration = 15000000000;
    renew_deadline = 10000000000;
    retry_period = 2000000000;
  });
  timings = some (record {
    lease_duration = 30000000000;
    renew_deadline = 20000000000;
    retry_period = 5000000000;
  });
  identity = some "pod-1";
  workers = none;
}

abbrev settings : LeaderElectionConfig
settings = record {
  namespace = "default";
  name = "lock";
  identity = "pod-1";
  lease_duration = 30000000000;
  renew_deadline = 20000000000;
  retry_period = 5000000000;
}

electing-settings : resolve_leader_election electing ≡ ok (some settings)
unfolding resolve_leader_election validate
electing-settings = refl

resolve_leader_election_iff_example :
    (resolve_leader_election electing ≡ ok (some settings))
    ↔ Accepts
        (requested electing.election electing.timings electing.identity)
        electing.timings
        (some settings)
resolve_leader_election_iff_example = resolve_leader_election_iff electing (some settings)

-- A server that keeps the last lease, with the number of its writes as the version.
abbrev Server : Type 0
Server = ℕ × Option Lease

abbrev at_version : ℕ → Lease → Lease
at_version n l = record l { metadata = record l.metadata { resource_version = some n } }

abbrev stored_at : ℕ → Option Lease → Option Lease
stored_at n none = none
stored_at n (some l) = some (at_version n l)

abbrev server : LeaseApi Server
server = record {
  get_opt = λ name w. (ok (stored_at w.0 w.1), w);
  create = λ l w. (ok (at_version (suc w.0) l), (suc w.0, some l));
  replace = λ name l w. (ok (at_version (suc w.0) l), (suc w.0, some l));
}

read_version :
    (w : Server) (l : Lease)
    → ◌≡◌ {A = Option Lease} (stored_at w.0 w.1) (some l)
    → (v : ℕ) × (l.metadata.resource_version ≡ some v) × (v ≤ w.0)
read_version (n, none) l h = cc
read_version (n, some k) l h = (n, cc, omega arith)

versions : Versions server
versions = record {
  Given = λ w v. v ≤ w.0;
  get_keeps = λ name w v h. h;
  create_keeps = λ l w v h. omega arith;
  replace_keeps = λ name l w v h. omega arith;
  get_given = λ name w l h. read_version w l cc;
  create_new = λ l w r h. (suc w.0, cc, (λ g. omega arith), omega arith);
  replace_new = λ name l w r h. (suc w.0, cc, (λ g. omega arith), omega arith);
}

-- A replica that gets the lease at its second attempt, renews it once, and runs on.
abbrev script : Script Server
script = record {
  health_bound = ok tt;
  metrics_bound = ok tt;
  attempts =
      record { took = 60000000000; now_micro = 1; cut = before_write }
      ∷ record { took = 1000000; now_micro = 2; cut = before_get }
      ∷ [];
  shutdown = none;
  renewals = record { took = 1000000; now_micro = 3; cut = before_get } ∷ [];
  ended = none;
  release_micro = 4;
  release_timed_out = none;
}

run-Runs_example :
    Runs server settings (0, none) 0 script.attempts (run server script electing (0, none) 0)
run-Runs_example = run-Runs server versions script electing settings (0, none) 0 electing-settings

-- A reconciler that fails on some resources.
abbrev reconciler : Reconciler ℕ Bool String
reconciler = record {
  reconcile = λ fails w. (if fails then err "failed" else ok await_change, suc w);
  error_policy = λ cr e. requeue 5;
  error_label = λ e. e;
}

-- A reconcile that succeeds, one that fails, and one that is dropped.
abbrev calls : List (Call ℕ Bool)
calls =
    record { cr = false; took = 1; elapsed = 1; left = 0 }
    ∷ record { cr = true; took = 2; elapsed = 2; left = 0 }
    ∷ record { cr = false; took = 9; elapsed = 5; left = 7 }
    ∷ []

reconcile_all-Counted_example :
    Counted reconciler
      (some 5)
      "ConfigMap"
      Observability.new
      (labels_of reconciler (some 5) "ConfigMap" calls 0)
      (reconcile_all reconciler (some 5) "ConfigMap" calls (some Observability.new) 0).0
reconcile_all-Counted_example =
    reconcile_all-Counted reconciler (some 5) "ConfigMap" calls Observability.new 0

-- Its counters: three reconciles, and one error under each label.
calls-counted :
    labels_of reconciler (some 5) "ConfigMap" calls 0 ≡ (none ∷ some "failed" ∷ some "timeout" ∷ [])
unfolding labels_of
calls-counted = refl
