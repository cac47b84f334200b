-- ===== src/Controller/Builder.antt =====
-- crates/koprs/src/controller.rs: `ControllerBuilder`. `Ctl` is kube-runtime's controller and
-- `Watch` its watch settings; the environment variables that the source reads are arguments.
use koprs.Prelude.{
  ℕ, String, Bool, true, false, Option, none, some, is_empty, if◌then◌else◌, Result, ok, err,
}
use koprs.Prelude.Fallible.{◌>>◌}
use koprs.Error.{KubeGenericError, config}
use koprs.Leader.Config.{LeaderElectionConfig, validate}
use koprs.Leader.Config as Config

pub record LeaderElectionTimings : Type 0 where
  pub lease_duration : ℕ
  pub renew_deadline : ℕ
  pub retry_period : ℕ

pub record ControllerBuilder (Ctl Watch : Type 0) : Type 0 where
  pub watch_settings : Watch
  pub configure : Option (Ctl → Ctl)
  pub health : Option ℕ
  pub metrics : Option ℕ
  pub graceful : Bool
  pub timeout : Option ℕ
  pub election : Option LeaderElectionConfig
  pub timings : Option LeaderElectionTimings
  pub identity : Option String
  pub workers : Option ℕ

-- `or_else` and `unwrap_or_default` of two environment variables.
abbrev pub first_set : Option String → Option String → String
first_set (some a) b = a
first_set none (some b) = b
first_set none none = ""

abbrev pub with_identity : Option String → LeaderElectionConfig → LeaderElectionConfig
with_identity none c = c
with_identity (some i) c = record c { identity = i }

abbrev pub with_timings : Option LeaderElectionTimings → LeaderElectionConfig → LeaderElectionConfig
with_timings none c = c
with_timings (some t) c = record c {
  lease_duration = t.lease_duration;
  renew_deadline = t.renew_deadline;
  retry_period = t.retry_period;
}

abbrev pub no_identity : KubeGenericError
no_identity = config "leader election needs a unique identity: set POD_NAME or HOSTNAME"

abbrev pub no_election : KubeGenericError
no_election = config "leader_election_timings() was set without leader_election()"

-- The end of `resolve_leader_election`.
unfoldable pub checked :
    LeaderElectionConfig → Result KubeGenericError (Option LeaderElectionConfig)
checked c = if is_empty c.identity then err no_identity else (do validate c; ok (some c))

abbrev pub resolve_parts :
    Option LeaderElectionConfig
    → Option LeaderElectionTimings
    → Option String
    → Result KubeGenericError (Option LeaderElectionConfig)
resolve_parts none none identity = ok none
resolve_parts none (some t) identity = err no_election
resolve_parts (some c) timings identity = checked (with_timings timings (with_identity identity c))

-- The new configuration runs first, and what was registered before runs on its result.
abbrev pub before : {Ctl : Type 0} → (Ctl → Ctl) → Option (Ctl → Ctl) → Ctl → Ctl
before f none ctl = f ctl
before f (some existing) ctl = existing (f ctl)

module _ {Ctl Watch : Type 0} where
  unfoldable pub new : Watch → ControllerBuilder Ctl Watch
  new default = record {
    watch_settings = default;
    configure = none;
    health = none;
    metrics = none;
    graceful = false;
    timeout = none;
    election = none;
    timings = none;
    identity = none;
    workers = none;
  }

  unfoldable pub health_port : ControllerBuilder Ctl Watch → ℕ → ControllerBuilder Ctl Watch
  health_port b port = record b { health = some port }

  unfoldable pub metrics_port : ControllerBuilder Ctl Watch → ℕ → ControllerBuilder Ctl Watch
  metrics_port b port = record b { metrics = some port }

  unfoldable pub graceful_shutdown : ControllerBuilder Ctl Watch → ControllerBuilder Ctl Watch
  graceful_shutdown b = record b { graceful = true }

  -- With the values of POD_NAME and HOSTNAME.
  unfoldable pub leader_election :
      Option String
      → Option String
      → ControllerBuilder Ctl Watch
      → String
      → String
      → ControllerBuilder Ctl Watch
  unfolding Config.new
  leader_election pod_name hostname b namespace name = record b {
    election = some (Config.new namespace name (first_set pod_name hostname));
  }

  unfoldable pub reconcile_timeout : ControllerBuilder Ctl Watch → ℕ → ControllerBuilder Ctl Watch
  reconcile_timeout b limit = record b { timeout = some limit }

  -- `labels` sets the selector of the watch settings.
  unfoldable pub label_selector :
      (Watch → String → Watch) → ControllerBuilder Ctl Watch → String → ControllerBuilder Ctl Watch
  label_selector labels b selector = record b { watch_settings = labels b.watch_settings selector }

  unfoldable pub watcher_config : ControllerBuilder Ctl Watch → Watch → ControllerBuilder Ctl Watch
  watcher_config b w = record b { watch_settings = w }

  unfoldable pub concurrency : ControllerBuilder Ctl Watch → ℕ → ControllerBuilder Ctl Watch
  concurrency b n = record b { workers = some n }

  unfoldable pub leader_election_timings :
      ControllerBuilder Ctl Watch → ℕ → ℕ → ℕ → ControllerBuilder Ctl Watch
  leader_election_timings b lease_duration renew_deadline retry_period = record b {
    timings = some (record {
      lease_duration = lease_duration;
      renew_deadline = renew_deadline;
      retry_period = retry_period;
    });
  }

  unfoldable pub leader_election_identity :
      ControllerBuilder Ctl Watch → String → ControllerBuilder Ctl Watch
  leader_election_identity b i = record b { identity = some i }

  unfoldable pub with_watches :
      ControllerBuilder Ctl Watch → (Ctl → Ctl) → ControllerBuilder Ctl Watch
  with_watches b f = record b { configure = some (before f b.configure) }

  -- `own` is kube-runtime's `owns` of the child and its settings, and `add` its `watches`.
  unfoldable pub owns : (Ctl → Ctl) → ControllerBuilder Ctl Watch → ControllerBuilder Ctl Watch
  owns own b = record b { configure = some (before own b.configure) }

  unfoldable pub watch : (Ctl → Ctl) → ControllerBuilder Ctl Watch → ControllerBuilder Ctl Watch
  watch add b = record b { configure = some (before add b.configure) }

  unfoldable pub resolve_leader_election :
      ControllerBuilder Ctl Watch → Result KubeGenericError (Option LeaderElectionConfig)
  unfolding checked
  resolve_leader_election b = resolve_parts b.election b.timings b.identity
