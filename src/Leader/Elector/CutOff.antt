-- ===== src/Leader/Elector/CutOff.antt =====
-- crates/koprs/src/leader.rs: a leader that cannot reach the server.
use koprs.Prelude.{
  ℕ, ◌+◌, ◌*◌, ◌≤◌, ◌<◌, ◌≡◌, refl, sym, subst, ◌∙◌, ap, String, ◌⊎◌, inl, inr, List, [], ◌∷◌,
  length, arith, ok, err, leb, ltb, Bool-cases,
}
use koprs.Error.{KubeError, KubeGenericError, kube, leader_election_lost}
use koprs.Leader.Config.{validate}
use koprs.Leader.Config.Bounds.{validate_iff}
use koprs.Leader.Lease.{MicroTime}
use koprs.Leader.Elector.Attempt.{LeaderElector, LeaseApi, try_acquire_or_renew}
use koprs.Leader.Elector.Loops.{
  Round, before_get, Renewing, renewing, lost, renew_round, renew_rounds, last_observed,
  renew_until_lost,
}

module _ {W : Type 0} (a : LeaseApi W) where
  abbrev pub HasLost : Renewing W → ℕ → Type 0
  HasLost (renewing el w last_renew now) r = ⊥
  HasLost (lost last_renew now e) r = last_renew ≡ r

  -- The lease cannot be read.
  abbrev pub IsCutOff : String → Type 0
  IsCutOff name = (w : W) → (e : KubeError) × ((a.get_opt name w).0 ≡ err e)

  cut_off_attempt :
      (el : LeaderElector) (at : ℕ) (micro : MicroTime) (w : W)
      → IsCutOff el.config.name
      → (e : KubeError) × (w' : W) × (try_acquire_or_renew a el at micro w
          ≡ ((err (kube e), el), w'))
  unfolding try_acquire_or_renew
  cut_off_attempt el at micro w cut =
      let (e, f) = cut w in (e, (a.get_opt el.config.name w).1, rw f)

  abbrev pub too_late : KubeGenericError
  too_late = leader_election_lost "could not renew lease within renew deadline"

  abbrev pub too_slow : KubeGenericError
  too_slow = leader_election_lost "lease renewal did not complete within renew deadline"

  -- A round of a leader that is cut off.
  cut_off_round :
      (el : LeaderElector) (w : W) (last_renew now : ℕ) (r : Round)
      → IsCutOff el.config.name
      → let deadline = last_renew + el.config.renew_deadline in
        let start = now + el.config.retry_period in
        ((deadline ≤ start)
          × (renew_round a el w last_renew now r ≡ lost last_renew start too_late))
        ⊎ (((start < deadline)
              × (deadline < start + r.took)
              × (renew_round a el w last_renew now r ≡ lost last_renew deadline too_slow))
            ⊎ ((w' : W) × (start + r.took ≤ deadline)
                × (start < deadline)
                × (renew_round a el w last_renew now r
                    ≡ renewing el w' last_renew (start + r.took))))
  unfolding renew_round
  cut_off_round el w last_renew now r cut =
      let start = now + el.config.retry_period in
      let (e, w', failed) = cut_off_attempt el start r.now_micro w cut in
      elim (Bool-cases (leb (last_renew + el.config.renew_deadline) start)) [
        | inl late ↦ inl (ground arith, rw late)
        | inr early ↦
            elim (Bool-cases (ltb (last_renew + el.config.renew_deadline) (start + r.took))) [
              | inl slow ↦ inr (inl (ground arith, ground arith, rw (early, slow)))
              | inr quick ↦ inr (inr (w', ground arith, ground arith, rw (early, quick, failed)))
            ]
      ]

  cut_off_rounds :
      (el : LeaderElector) (w : W) (last_renew now : ℕ) (rs : List Round)
      → IsCutOff el.config.name
      → last_renew + el.config.renew_deadline < now + length rs * el.config.retry_period
      → now ≤ last_renew + el.config.renew_deadline
      → HasLost (renew_rounds a (renewing el w last_renew now) rs) last_renew
  unfolding renew_rounds
  cut_off_rounds el w last_renew now [] cut long h = absurd (omega arith)
  cut_off_rounds el w last_renew now (r ∷ rs) cut long h =
      let outcome = λ (s : Renewing W). HasLost (renew_rounds a s rs) last_renew in
      elim (cut_off_round el w last_renew now r cut) [
        | inl (late, eq) ↦ subst outcome (sym eq) refl
        | inr (inl (early, slow, eq)) ↦ subst outcome (sym eq) refl
        | inr (inr (w', within, early, eq)) ↦ subst outcome (sym eq) (
            cut_off_rounds el w' last_renew (now + el.config.retry_period + r.took) rs cut
              (omega arith) within)
      ]

  -- A leader that cannot read the lease any more, and whose last observation is at most
  -- `renew_deadline` old, gives up, and keeps the start of its last renewal,
  -- as soon as the rounds sleep for longer than what is left of the renew deadline.
  pub cut_off_gives_up :
      (el : LeaderElector) (w : W) (now : ℕ) (rs : List Round)
      → IsCutOff el.config.name
      → last_observed el.observed now + el.config.renew_deadline
        < now + length rs * el.config.retry_period
      → now ≤ last_observed el.observed now + el.config.renew_deadline
      → HasLost (renew_until_lost a el w now rs) (last_observed el.observed now)
  unfolding renew_until_lost
  cut_off_gives_up el w now rs cut long h = cut_off_rounds el w _ now rs cut long h

  -- Two rounds in which the attempt fails at once.
  abbrev pub quick : Round
  quick = record { took = 0; now_micro = 0; cut = before_get }

  quick_rounds :
      (el : LeaderElector) (w : W) (now : ℕ)
      → el.config.retry_period < el.config.renew_deadline
      → el.config.renew_deadline ≤ 2 * el.config.retry_period
      → IsCutOff el.config.name
      → renew_rounds a (renewing el w now now) (quick ∷ quick ∷ [])
        ≡ lost now (now + el.config.retry_period + 0 + el.config.retry_period) too_late
  unfolding renew_rounds
  quick_rounds el w now first twice cut = elim (cut_off_round el w now now quick cut) [
    | inl (late, eq) ↦ absurd (omega arith)
    | inr (inl (early, slow, eq)) ↦ absurd (omega arith)
    | inr (inr (w', within, early, eq)) ↦
        let now' = now + el.config.retry_period + 0 in
        elim (cut_off_round el w' now now' quick cut) [
          | inl (late, eq') ↦
              ap (λ s. renew_rounds a s (quick ∷ [])) eq ∙ ap (λ s. renew_rounds a s []) eq'
          | inr (inl (early', slow, eq')) ↦ absurd (omega arith)
          | inr (inr (w'', within', early', eq')) ↦ absurd (omega arith)
        ]
  ]

  -- Settings that `validate` accepts, with `lease_duration` at most twice the retry period: a leader
  -- that is cut off right after a renewal at `now`, and whose attempts fail at once, gives up no
  -- sooner than the lease's duration after that renewal.
  pub outlives_lease :
      (el : LeaderElector) (w : W) (now : ℕ)
      → validate el.config ≡ ok tt
      → el.config.lease_duration ≤ 2 * el.config.retry_period
      → IsCutOff el.config.name
      → (stop : ℕ) × (renew_rounds a (renewing el w now now) (quick ∷ quick ∷ [])
          ≡ lost now stop too_late)
        × (now + el.config.lease_duration ≤ stop)
  outlives_lease el w now valid twice cut =
      let v = (validate_iff el.config).0 valid in
      (_, quick_rounds el w now v.retry_first (omega (arith, v.renew_first)) cut, omega arith)
