-- ===== src/Leader/Elector/Loops.antt =====
-- crates/koprs/src/leader.rs: `acquire` and `renew_until_lost`. Each loop runs over the rounds that
-- the environment grants: how long each attempt takes and what it reads from the wall clock. A list
-- that ends leaves the loop running, so a theorem about a longer run takes a longer list.
use koprs.Prelude.{
  ℕ, ◌+◌, Option, none, some, List, [], ◌∷◌, ltb, leb, if◌then◌else◌, Result, ok, err,
}
use koprs.Error.{KubeError, KubeGenericError, leader_election_lost}
use koprs.Leader.Lease.{Lease, MicroTime}
use koprs.Leader.Elector.Attempt.{
  Attempt, held, held_by_other, conflict, Observed, LeaderElector, Plan, finished, create, replace,
  LeaseApi, after_get, try_acquire_or_renew,
}

-- How far an attempt got that was dropped by its timeout.
pub data Cut : Type 0 where
  before_get before_write before_reply : Cut

pub record Round : Type 0 where
  pub took : ℕ
  pub now_micro : MicroTime
  pub cut : Cut

-- `acquire` while it waits, or after it returned.
pub data Acquiring (W : Type 0) : Type 0 where
  waiting : LeaderElector → W → ℕ → Acquiring W
  acquired : LeaderElector → W → ℕ → Acquiring W

-- `renew_until_lost` between two rounds (the start of the last renewal and the time), or after it
-- returned: the last renewal, the time and the reason.
pub data Renewing (W : Type 0) : Type 0 where
  renewing : LeaderElector → W → ℕ → ℕ → Renewing W
  lost : ℕ → ℕ → KubeGenericError → Renewing W

abbrev pub last_observed : Option Observed → ℕ → ℕ
last_observed none now = now
last_observed (some o) now = o.observed_at

module _ {W : Type 0} (a : LeaseApi W) where
  abbrev pub write_unseen : LeaderElector × Plan → W → LeaderElector × W
  write_unseen (el, finished r) w = (el, w)
  write_unseen (el, create lease) w = (el, (a.create lease w).1)
  write_unseen (el, replace lease) w = (el, (a.replace el.config.name lease w).1)

  abbrev pub get_seen :
      LeaderElector → ℕ → MicroTime → Cut → Result KubeError (Option Lease) → W → LeaderElector × W
  get_seen el started now_micro cut (err e) w = (el, w)
  get_seen el started now_micro before_reply (ok found) w =
      write_unseen (after_get el started now_micro found) w
  get_seen el started now_micro _ (ok found) w = ((after_get el started now_micro found).0, w)

  -- What an attempt that timed out leaves behind.
  unfoldable pub dropped : LeaderElector → ℕ → MicroTime → Cut → W → LeaderElector × W
  unfolding after_get
  dropped el started now_micro before_get w = (el, w)
  dropped el started now_micro cut w =
      get_seen el started now_micro cut (a.get_opt el.config.name w).0
        (a.get_opt el.config.name w).1

  abbrev pub acquire_answered :
      (Result KubeGenericError Attempt × LeaderElector) × W → ℕ → ℕ → Acquiring W
  acquire_answered ((ok held, el), w) now retry = acquired el w now
  acquire_answered ((ok (held_by_other h), el), w) now retry = waiting el w (now + retry)
  acquire_answered ((ok conflict, el), w) now retry = waiting el w (now + retry)
  acquire_answered ((err e, el), w) now retry = waiting el w (now + retry)

  -- One turn of the loop of `acquire`, at `started`.
  unfoldable pub acquire_round : LeaderElector → W → ℕ → Round → Acquiring W
  unfolding dropped try_acquire_or_renew
  acquire_round el w started r =
      if ltb el.config.renew_deadline r.took
      then (let (el', w') = dropped el started r.now_micro r.cut w in
          waiting el' w' (started + el.config.renew_deadline + el.config.retry_period))
      else acquire_answered (try_acquire_or_renew a el started r.now_micro w) (started + r.took)
          el.config.retry_period

  unfoldable pub acquire : Acquiring W → List Round → Acquiring W
  acquire (acquired el w now) rs = acquired el w now
  acquire (waiting el w now) [] = waiting el w now
  acquire (waiting el w now) (r ∷ rs) = acquire (acquire_round el w now r) rs

  abbrev pub renew_answered :
      (Result KubeGenericError Attempt × LeaderElector) × W → ℕ → ℕ → ℕ → Renewing W
  renew_answered ((ok held, el), w) last_renew started now = renewing el w started now
  renew_answered ((ok (held_by_other h), el), w) last_renew started now =
      lost last_renew now (leader_election_lost "lease is now held by another")
  renew_answered ((ok conflict, el), w) last_renew started now = renewing el w last_renew now
  renew_answered ((err e, el), w) last_renew started now = renewing el w last_renew now

  -- One turn of the loop of `renew_until_lost`, which sleeps first; `deadline` and `attempt_start`
  -- are those of the source.
  abbrev pub renew_attempt : LeaderElector → W → ℕ → ℕ → ℕ → Round → Renewing W
  renew_attempt el w last_renew deadline attempt_start r =
      if leb deadline attempt_start
      then lost last_renew attempt_start
          (leader_election_lost "could not renew lease within renew deadline")
      else if ltb deadline (attempt_start + r.took)
      then lost last_renew deadline
          (leader_election_lost "lease renewal did not complete within renew deadline")
      else renew_answered (try_acquire_or_renew a el attempt_start r.now_micro w) last_renew
          attempt_start (attempt_start + r.took)

  unfoldable pub renew_round : LeaderElector → W → ℕ → ℕ → Round → Renewing W
  unfolding try_acquire_or_renew
  renew_round el w last_renew now r =
      renew_attempt el w last_renew (last_renew + el.config.renew_deadline)
        (now + el.config.retry_period) r

  unfoldable pub renew_rounds : Renewing W → List Round → Renewing W
  renew_rounds (lost last_renew now e) rs = lost last_renew now e
  renew_rounds (renewing el w last_renew now) [] = renewing el w last_renew now
  renew_rounds (renewing el w last_renew now) (r ∷ rs) =
      renew_rounds (renew_round el w last_renew now r) rs

  unfoldable pub renew_until_lost : LeaderElector → W → ℕ → List Round → Renewing W
  renew_until_lost el w now rs = renew_rounds (renewing el w (last_observed el.observed now) now) rs
