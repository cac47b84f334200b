-- ===== src/Controller/Leadership.antt =====
-- crates/koprs/src/controller.rs: a controller runs only within its lease's deadline.
use koprs.Prelude.{ℕ, ◌+◌, ◌≤◌, ◌≡◌, refl, sym, subst, Option, none, some, List, Result, ok, err}
use koprs.Prelude.Fallible.{◌>>◌}
use koprs.Error.{KubeGenericError}
use koprs.Leader.Config.{LeaderElectionConfig}
use koprs.Leader.Elector.Attempt.{LeaderElector, LeaseApi}
use koprs.Leader.Elector.Attempt as Attempt
use koprs.Leader.Elector.Loops.{
  Round, Acquiring, waiting, acquired, Renewing, renewing, lost, acquire, renew_until_lost,
  last_observed,
}
use koprs.Leader.Elector.Renewal.{InTime, renew_until_lost-InTime}
use koprs.Leader.Elector.Freshness.{Versions}
use koprs.Leader.Elector.Winning.{Won, HasWon, acquire-HasWon, IsSince, renew_until_lost-IsSince}
use koprs.Leader.Elector.Acquiring.{IsWaiting, acquire-IsWaiting}
use koprs.Controller.Builder.{ControllerBuilder, resolve_leader_election}
use koprs.Controller.Run.{
  Dropping, Script, Running, leading, unelected, deposed, bound, stream_ended, after_renewals,
  shut_down, after_acquire, elect, started, heard, run,
}

module _ {W : Type 0} (a : LeaseApi W) (c : LeaderElectionConfig) (w : W) (now : ℕ)
    (rounds : List Round) where
  -- One of the rounds won the election that started at `w` and `now`, with an attempt that began no
  -- later than the last renewal.
  abbrev pub HasLease : ℕ → Type 0
  HasLease last_renew =
      (began : ℕ) × Won a c (waiting (Attempt.new c) w now) rounds began × (began ≤ last_renew)

  -- Reconciles run only with the lease and within `renew_deadline` of the last renewal, and stop
  -- within a further `retry_period`.
  abbrev pub Runs : Running W → Type 0
  Runs (leading el w' last_renew now') =
      (el.config ≡ c)
      × (last_renew ≤ now')
      × (now' ≤ last_renew + c.renew_deadline)
      × HasLease last_renew
  Runs (deposed last_renew now' e) =
      (last_renew ≤ now')
      × (now' ≤ last_renew + c.renew_deadline + c.retry_period)
      × HasLease last_renew
  Runs (unelected w') = ⊥
  Runs s = Unit {0}

module _ {W : Type 0} (a : LeaseApi W) (vs : Versions a) (script : Script W)
    (c : LeaderElectionConfig) (w : W) (now : ℕ) where
  abbrev IsRun : Running W → Type 0
  IsRun = Runs a c w now script.attempts

  ended-Runs :
      (d : Option Dropping) (el : LeaderElector) (w' : W) (last_renew now' : ℕ)
      → InTime a c (renewing el w' last_renew now')
      → HasLease a c w now script.attempts last_renew
      → IsRun (stream_ended a script d el w' last_renew now')
  ended-Runs none el w' last_renew now' (p, q, e) h = (e, p, q, h)
  ended-Runs (some d) el w' last_renew now' t h = tt

  renewals-IsRun :
      (s : Renewing W) (began : ℕ)
      → Won a c (waiting (Attempt.new c) w now) script.attempts began
      → InTime a c s
      → IsSince a began s
      → IsRun (after_renewals a script s)
  renewals-IsRun (lost last_renew now' e) began won (p, q) since = (p, q, (began, won, since))
  renewals-IsRun (renewing el w' last_renew now') began won h (since, le) =
      ended-Runs script.ended el w' last_renew now' h (began, won, since)

  shut_down-Runs :
      (d : Option Dropping) (el : LeaderElector) (w' : W) (now' : ℕ)
      → IsRun (shut_down a script d el w' now')
  shut_down-Runs none el w' now' = tt
  shut_down-Runs (some d) el w' now' = tt

  acquire-Runs :
      (s : Acquiring W)
      → IsWaiting a vs c s
      → HasWon a vs c (waiting (Attempt.new c) w now) script.attempts s
      → IsRun (after_acquire a script s)
  acquire-Runs (waiting el w' now') h won = shut_down-Runs script.shutdown el w' now'
  acquire-Runs (acquired el w' now') (e, p, q) won =
      let leader = renew_until_lost a el w' now' script.renewals in
      renewals-IsRun leader (last_observed el.observed now') won
        (subst (λ x. InTime a x leader) e
          (renew_until_lost-InTime a el w' now' script.renewals p
            (subst (λ x. now' ≤ last_observed el.observed now' + x.renew_deadline) (sym e) q)))
        (renew_until_lost-IsSince a el w' now' script.renewals p)

  elect-Runs : IsRun (elect a script (some c) w now)
  unfolding Attempt.new
  elect-Runs =
      acquire-Runs (acquire a (waiting (Attempt.new c) w now) script.attempts)
        (acquire-IsWaiting a vs c (waiting (Attempt.new c) w now) script.attempts (refl, tt))
        (acquire-HasWon a vs c (Attempt.new c) w now script.attempts (refl, tt))

  bound-Runs :
      (health metrics : Result KubeGenericError (Unit {0}))
      → IsRun (started a script (do health; metrics; ok (some c)) w now)
  bound-Runs (err e) metrics = tt
  bound-Runs (ok u) (err e) = tt
  bound-Runs (ok u) (ok v) = elect-Runs

module _ {W : Type 0} (a : LeaseApi W) (vs : Versions a) (script : Script W) where
  -- A controller with an election, over a server that never gives a resource version twice: at
  -- whatever point between two attempts its script stops, its reconciles run only if, after rounds
  -- in which it waited, an attempt of the election that was not cut off was answered with `held`,
  -- and only from then on; they run at most `renew_deadline` after the start of its last renewal,
  -- which is not before that attempt, and when it is deposed they stop at most `retry_period` later.
  pub run-Runs :
      {Ctl Watch : Type 0} (b : ControllerBuilder Ctl Watch) (c : LeaderElectionConfig) (w : W)
      (now : ℕ)
      → resolve_leader_election b ≡ ok (some c)
      → Runs a c w now script.attempts (run a script b w now)
  unfolding run
  run-Runs b c w now h = rw h (
      bound-Runs a vs (heard b.graceful script) c w now (bound b.health script.health_bound)
        (bound b.metrics script.metrics_bound))
