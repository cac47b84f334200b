-- ===== src/Leader/Elector/Acquiring.antt =====
-- crates/koprs/src/leader.rs: what `acquire` knows when it returns.
use koprs.Prelude.{
  ℕ, ◌+◌, ◌≤◌, ◌≡◌, ap, ◌∙◌, Option, none, some, List, [], ◌∷◌, Result, ok, err, arith, Bool-cases,
  inl, inr, ltb,
}
use koprs.Error.{KubeError, KubeGenericError}
use koprs.Leader.Config.{LeaderElectionConfig}
use koprs.Leader.Lease.{Lease, MicroTime}
use koprs.Leader.Elector.Attempt.{
  Attempt, held, held_by_other, conflict, Observed, LeaderElector, Plan, finished, create, replace,
  LeaseApi, after_get, try_acquire_or_renew,
}
use koprs.Leader.Elector.Loops.{
  Cut, before_get, before_write, before_reply, Round, Acquiring, waiting, acquired, last_observed,
  write_unseen, get_seen, dropped, acquire_answered, acquire_round, acquire,
}
use koprs.Leader.Elector.Renewal.{config-after_get, config-try_acquire_or_renew}
use koprs.Leader.Elector.Freshness.{
  Versions, IsKnown, IsAt, Left, later_version, after_get-IsKnown, try_acquire_or_renew-Left,
}

module _ {W : Type 0} (a : LeaseApi W) (vs : Versions a) (c : LeaderElectionConfig) where
  -- The elector of a state: its settings and what it knows.
  abbrev pub IsReady : LeaderElector → W → Type 0
  IsReady el w = (el.config ≡ c) × IsKnown a vs w el.observed

  -- While it waits; and when it has acquired, within `renew_deadline` of the observation.
  abbrev pub IsWaiting : Acquiring W → Type 0
  IsWaiting (waiting el w now) = IsReady el w
  IsWaiting (acquired el w now) =
      (el.config ≡ c)
      × (last_observed el.observed now ≤ now)
      × (now ≤ last_observed el.observed now + c.renew_deadline)

  unseen-IsReady :
      (el : LeaderElector) (p : Plan) (w : W)
      → IsReady el w
      → let (el', w') = write_unseen a (el, p) w in IsReady el' w'
  unseen-IsReady el (finished r) w h = h
  unseen-IsReady el (create l) w (e, k) =
      (e, later_version a vs w (a.create l w).1 el.observed (vs.create_keeps l w) k)
  unseen-IsReady el (replace l) w (e, k) = (
    e,
    later_version a vs w (a.replace el.config.name l w).1 el.observed
        (vs.replace_keeps el.config.name l w) k,
  )

  seen-IsReady :
      (el : LeaderElector) (at : ℕ) (micro : MicroTime) (cut : Cut)
      (r : Result KubeError (Option Lease)) (w : W)
      → IsReady el w
      → ((l : Lease)
          → r ≡ ok (some l)
          → (v : ℕ) × (l.metadata.resource_version ≡ some v) × vs.Given w v)
      → let (el', w') = get_seen a el at micro cut r w in IsReady el' w'
  seen-IsReady el at micro cut (err e) w h given = h
  seen-IsReady el at micro before_reply (ok found) w (e, k) given =
      unseen-IsReady (after_get el at micro found).0 (after_get el at micro found).1 w
        (config-after_get el at micro found ∙ e, after_get-IsKnown a vs el at micro found w k given)
  seen-IsReady el at micro before_get (ok found) w (e, k) given =
      (config-after_get el at micro found ∙ e, after_get-IsKnown a vs el at micro found w k given)
  seen-IsReady el at micro before_write (ok found) w (e, k) given =
      (config-after_get el at micro found ∙ e, after_get-IsKnown a vs el at micro found w k given)

  pub dropped-IsReady :
      (el : LeaderElector) (at : ℕ) (micro : MicroTime) (cut : Cut) (w : W)
      → IsReady el w
      → let (el', w') = dropped a el at micro cut w in IsReady el' w'
  unfolding dropped
  dropped-IsReady el at micro before_get w h = h
  dropped-IsReady el at micro before_write w (e, k) =
      let name = el.config.name in
      seen-IsReady el at micro before_write (a.get_opt name w).0 (a.get_opt name w).1
        (e, later_version a vs w (a.get_opt name w).1 el.observed (vs.get_keeps name w) k)
        (vs.get_given name w)
  dropped-IsReady el at micro before_reply w (e, k) =
      let name = el.config.name in
      seen-IsReady el at micro before_reply (a.get_opt name w).0 (a.get_opt name w).1
        (e, later_version a vs w (a.get_opt name w).1 el.observed (vs.get_keeps name w) k)
        (vs.get_given name w)

  pub last_at : (o : Option Observed) (at now : ℕ) → IsAt a vs at o → last_observed o now ≡ at
  last_at none at now h = absurd h
  last_at (some o) at now h = h

  answered-IsWaiting :
      (x : (Result KubeGenericError Attempt × LeaderElector) × W) (at now retry : ℕ)
      → x.0.1.config ≡ c
      → Left a vs at x
      → at ≤ now
      → now ≤ at + c.renew_deadline
      → IsWaiting (acquire_answered a x now retry)
  answered-IsWaiting ((ok held, el), w) at now retry e (k, h) le lim =
      (e, omega (arith, last_at el.observed at now h), omega (arith, last_at el.observed at now h))
  answered-IsWaiting ((ok (held_by_other o), el), w) at now retry e k le lim = (e, k)
  answered-IsWaiting ((ok conflict, el), w) at now retry e k le lim = (e, k)
  answered-IsWaiting ((err x, el), w) at now retry e k le lim = (e, k)

  pub round-IsWaiting :
      (el : LeaderElector) (w : W) (at : ℕ) (r : Round)
      → IsReady el w
      → IsWaiting (acquire_round a el w at r)
  unfolding acquire_round
  round-IsWaiting el w at r (e, k) =
      let same : el.config.renew_deadline ≡ c.renew_deadline = ap (λ x. x.renew_deadline) e in
      elim (Bool-cases (ltb el.config.renew_deadline r.took)) [
        | inl slow ↦ rw slow (dropped-IsReady el at r.now_micro r.cut w (e, k))
        | inr quick ↦ rw quick (
            answered-IsWaiting (try_acquire_or_renew a el at r.now_micro w) at (at + r.took)
              el.config.retry_period (config-try_acquire_or_renew a el at r.now_micro w ∙ e)
              (try_acquire_or_renew-Left a vs el at r.now_micro w k) (omega arith) (ground arith))
      ]

  -- However the attempts go, `acquire` returns within `renew_deadline` of the time that it observed
  -- its own write, with its settings.
  pub acquire-IsWaiting :
      (s : Acquiring W) (rs : List Round) → IsWaiting s → IsWaiting (acquire a s rs)
  unfolding acquire
  acquire-IsWaiting (acquired el w now) rs h = h
  acquire-IsWaiting (waiting el w now) [] h = h
  acquire-IsWaiting (waiting el w now) (r ∷ rs) h =
      acquire-IsWaiting (acquire_round a el w now r) rs (round-IsWaiting el w now r h)
