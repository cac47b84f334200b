-- ===== src/Leader/Elector/Renewal.antt =====
-- crates/koprs/src/leader.rs: when the renewal loop gives up.
use koprs.Prelude.{
  ℕ, ◌+◌, ◌≤◌, ◌≡◌, refl, ◌∙◌, ap, inl, inr, Option, none, some, List, [], ◌∷◌, arith, Result, ok,
  err, leb, ltb, Bool-cases,
}
use koprs.Error.{KubeError, KubeGenericError}
use koprs.Leader.Config.{LeaderElectionConfig}
use koprs.Leader.Lease.{Lease, MicroTime}
use koprs.Leader.Elector.Attempt.{
  Attempt, held, held_by_other, conflict, LeaderElector, Plan, finished, create, replace, LeaseApi,
  observe, after_get, after_write, carry_out, answer_get, try_acquire_or_renew,
}
use koprs.Leader.Elector.Loops.{
  Round, Renewing, renewing, lost, renew_answered, renew_round, renew_rounds, last_observed,
  renew_until_lost,
}

pub config-observe :
    (el : LeaderElector) (lease : Lease) (at : ℕ) → (observe el lease at).config ≡ el.config
unfolding observe
config-observe el lease at = ground arith

pub config-after_get :
    (el : LeaderElector) (at : ℕ) (micro : MicroTime) (found : Option Lease)
    → (after_get el at micro found).0.config ≡ el.config
unfolding after_get
config-after_get el at micro none = refl
config-after_get el at micro (some lease) = config-observe el lease at

config-after_write :
    (el : LeaderElector) (at : ℕ) (r : Result KubeError Lease)
    → (after_write el at r).1.config ≡ el.config
unfolding after_write
config-after_write el at (ok lease) = config-observe el lease at
config-after_write el at (err e) = ground arith

module _ {W : Type 0} (a : LeaseApi W) where
  config-carry_out :
      (el : LeaderElector) (p : Plan) (at : ℕ) (w : W)
      → (carry_out a (el, p) at w).0.1.config ≡ el.config
  config-carry_out el (finished r) at w = refl
  config-carry_out el (create l) at w = config-after_write el at _
  config-carry_out el (replace l) at w = config-after_write el at _

  config-answer_get :
      (el : LeaderElector) (at : ℕ) (micro : MicroTime) (r : Result KubeError (Option Lease))
      (w : W)
      → (answer_get a el at micro r w).0.1.config ≡ el.config
  config-answer_get el at micro (err e) w = refl
  config-answer_get el at micro (ok found) w =
      config-carry_out _ (after_get el at micro found).1 at w ∙ config-after_get el at micro found

  -- An attempt keeps the configuration.
  pub config-try_acquire_or_renew :
      (el : LeaderElector) (at : ℕ) (micro : MicroTime) (w : W)
      → (try_acquire_or_renew a el at micro w).0.1.config ≡ el.config
  unfolding try_acquire_or_renew
  config-try_acquire_or_renew el at micro w =
      config-answer_get el at micro (a.get_opt el.config.name w).0 (a.get_opt el.config.name w).1

  -- Bounds on the time, from the start of the last renewal: within `renew_deadline` of it while the
  -- loop runs, and within a further `retry_period` when it gives up.
  abbrev pub InTime : LeaderElectionConfig → Renewing W → Type 0
  InTime c (renewing el w last_renew now) =
      (last_renew ≤ now) × (now ≤ last_renew + c.renew_deadline) × (el.config ≡ c)
  InTime c (lost last_renew now e) =
      (last_renew ≤ now) × (now ≤ last_renew + c.renew_deadline + c.retry_period)

  renew_answered-InTime :
      (c : LeaderElectionConfig) (x : (Result KubeGenericError Attempt × LeaderElector) × W)
      (last_renew started now : ℕ)
      → x.0.1.config ≡ c
      → last_renew ≤ started
      → started ≤ now
      → now ≤ last_renew + c.renew_deadline
      → InTime c (renew_answered a x last_renew started now)
  renew_answered-InTime c ((ok held, el), w) r s n e p q h = (q, omega arith, e)
  renew_answered-InTime c ((ok (held_by_other o), el), w) r s n e p q h = (omega arith, omega arith)
  renew_answered-InTime c ((ok conflict, el), w) r s n e p q h = (omega arith, h, e)
  renew_answered-InTime c ((err x, el), w) r s n e p q h = (omega arith, h, e)

  renew_round-InTime :
      (c : LeaderElectionConfig) (el : LeaderElector) (w : W) (last_renew now : ℕ) (r : Round)
      → InTime c (renewing el w last_renew now)
      → InTime c (renew_round a el w last_renew now r)
  unfolding renew_round
  renew_round-InTime c el w last_renew now r (le, h, e) =
      let deadline = last_renew + el.config.renew_deadline in
      let start = now + el.config.retry_period in
      let d : el.config.renew_deadline ≡ c.renew_deadline = ap (λ k. k.renew_deadline) e in
      let p : el.config.retry_period ≡ c.retry_period = ap (λ k. k.retry_period) e in
      elim (Bool-cases (leb deadline start)) [
        | inl late ↦ rw late (omega arith, omega arith)
        | inr early ↦ elim (Bool-cases (ltb deadline (start + r.took))) [
          | inl slow ↦ rw (early, slow) (omega arith, omega arith)
          | inr quick ↦
              rw (early, quick)
                (renew_answered-InTime c (try_acquire_or_renew a el start r.now_micro w) last_renew
                  start (start + r.took) (config-try_acquire_or_renew el start r.now_micro w ∙ e)
                  (omega arith) (omega arith) (ground arith))
        ]
      ]

  renew_rounds-InTime :
      (c : LeaderElectionConfig) (s : Renewing W) (rs : List Round)
      → InTime c s
      → InTime c (renew_rounds a s rs)
  unfolding renew_rounds
  renew_rounds-InTime c (lost last_renew now e) rs h = h
  renew_rounds-InTime c (renewing el w last_renew now) [] h = h
  renew_rounds-InTime c (renewing el w last_renew now) (r ∷ rs) h =
      renew_rounds-InTime c (renew_round a el w last_renew now r) rs
        (renew_round-InTime c el w last_renew now r h)

  -- Whatever the server answers and however long the attempts take, a leader whose last observation
  -- is at most `renew_deadline` old when the loop starts is never later than `renew_deadline` after
  -- the start of its last renewal between two rounds, and gives up at most `retry_period` after
  -- that.
  pub renew_until_lost-InTime :
      (el : LeaderElector) (w : W) (now : ℕ) (rs : List Round)
      → last_observed el.observed now ≤ now
      → now ≤ last_observed el.observed now + el.config.renew_deadline
      → InTime el.config (renew_until_lost a el w now rs)
  unfolding renew_until_lost
  renew_until_lost-InTime el w now rs le h = renew_rounds-InTime el.config _ rs (le, h, refl)
