-- ===== src/Controller/Run.antt =====
-- crates/koprs/src/controller.rs: `run`, from the settings to the release of the lease. The script
-- of the environment says how the binds go, which rounds the election has, and when a shutdown or
-- the end of kube-runtime's stream comes; where it says nothing, the run goes on.
use koprs.Prelude.{ℕ, Bool, Option, none, some, List, if◌then◌else◌, Result, ok, err}
use koprs.Prelude.Fallible.{◌>>=◌, ◌>>◌}
use koprs.Error.{KubeGenericError}
use koprs.Leader.Config.{LeaderElectionConfig}
use koprs.Leader.Lease.{MicroTime}
use koprs.Leader.Elector.Attempt.{LeaderElector, LeaseApi, release}
use koprs.Leader.Elector.Attempt as Attempt
use koprs.Leader.Elector.Loops.{
  Cut, Round, Acquiring, waiting, acquired, Renewing, renewing, lost, dropped, acquire,
  renew_until_lost,
}
use koprs.Controller.Builder.{ControllerBuilder, resolve_leader_election}

-- The attempt that a `select` drops: when it started, and how far it got.
pub record Dropping : Type 0 where
  pub started : ℕ
  pub now_micro : MicroTime
  pub cut : Cut

pub record Script (W : Type 0) : Type 0 where
  pub health_bound : Result KubeGenericError (Unit {0})
  pub metrics_bound : Result KubeGenericError (Unit {0})
  pub attempts : List Round
  pub shutdown : Option Dropping
  pub renewals : List Round
  pub ended : Option Dropping
  pub release_micro : MicroTime
  pub release_timed_out : Option W

-- How far a run got. `leading` and `unelected` are the states in which reconciles run.
pub data Running (W : Type 0) : Type 0 where
  refused : KubeGenericError → Running W
  standby : LeaderElector → W → ℕ → Running W
  withdrawn : LeaderElector → W → Running W
  leading : LeaderElector → W → ℕ → ℕ → Running W
  unelected : W → Running W
  deposed : ℕ → ℕ → KubeGenericError → Running W
  finished : W → Running W

-- A listener that was asked for.
abbrev pub bound :
    Option ℕ → Result KubeGenericError (Unit {0}) → Result KubeGenericError (Unit {0})
bound none r = ok tt
bound (some port) r = r

module _ {W : Type 0} (a : LeaseApi W) (script : Script W) where
  -- The release of the lease; its result only goes to the log.
  abbrev pub release_lease : LeaderElector → W → W
  release_lease el w = elim script.release_timed_out [
    | none ↦ (release a el script.release_micro w).1
    | some left ↦ left
  ]

  -- The stream of the controller ended while the elector was in an attempt, which is dropped.
  abbrev pub stream_ended : Option Dropping → LeaderElector → W → ℕ → ℕ → Running W
  stream_ended none el w last_renew now = leading el w last_renew now
  stream_ended (some d) el w last_renew now =
      let (el', w') = dropped a el d.started d.now_micro d.cut w in finished (release_lease el' w')

  abbrev pub after_renewals : Renewing W → Running W
  after_renewals (lost last_renew now e) = deposed last_renew now e
  after_renewals (renewing el w last_renew now) = stream_ended script.ended el w last_renew now

  abbrev pub shut_down : Option Dropping → LeaderElector → W → ℕ → Running W
  shut_down none el w now = standby el w now
  shut_down (some d) el w now =
      let (el', w') = dropped a el d.started d.now_micro d.cut w in withdrawn el' w'

  abbrev pub after_acquire : Acquiring W → Running W
  after_acquire (waiting el w now) = shut_down script.shutdown el w now
  after_acquire (acquired el w now) = after_renewals (renew_until_lost a el w now script.renewals)

  abbrev pub elect : Option LeaderElectionConfig → W → ℕ → Running W
  elect none w now = elim script.ended [ none ↦ unelected w | some d ↦ finished w ]
  elect (some c) w now = after_acquire (acquire a (waiting (Attempt.new c) w now) script.attempts)

  abbrev pub started : Result KubeGenericError (Option LeaderElectionConfig) → W → ℕ → Running W
  started (err e) w now = refused e
  started (ok c) w now = elect c w now

-- A shutdown signal is only heard when `graceful_shutdown` was set.
abbrev pub heard : {W : Type 0} → Bool → Script W → Script W
heard graceful s = record s { shutdown = if graceful then s.shutdown else none }

module _ {W : Type 0} (a : LeaseApi W) (script : Script W) where
  unfoldable pub run : {Ctl Watch : Type 0} → ControllerBuilder Ctl Watch → W → ℕ → Running W
  unfolding resolve_leader_election acquire renew_until_lost dropped release Attempt.new
  run b w now =
      started a (heard b.graceful script)
        (do
          election ← resolve_leader_election b
          bound b.health script.health_bound
          bound b.metrics script.metrics_bound
          ok election)
        w now
