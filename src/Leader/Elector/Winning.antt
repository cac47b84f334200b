-- ===== src/Leader/Elector/Winning.antt =====
-- crates/koprs/src/leader.rs: the attempt behind an `acquire` that returned, and that a renewal loop
-- starts from it.
use koprs.Prelude.{
  ℕ, ◌+◌, ◌≤◌, ◌≡◌, refl, ap, sym, subst, ◌∙◌, inl, inr, List, [], ◌∷◌, ◌++◌, Result, ok, err,
  arith, Bool-cases, ltb, leb,
}
use koprs.Error.{KubeGenericError}
use koprs.Leader.Config.{LeaderElectionConfig}
use koprs.Leader.Elector.Attempt.{
  Attempt, held, held_by_other, conflict, LeaderElector, LeaseApi, try_acquire_or_renew,
}
use koprs.Leader.Elector.Loops.{
  Round, Acquiring, waiting, acquired, Renewing, renewing, lost, last_observed, acquire_answered,
  acquire_round, acquire, renew_answered, renew_round, renew_rounds, renew_until_lost,
}
use koprs.Leader.Elector.Freshness.{Versions, Left, try_acquire_or_renew-Left}
use koprs.Leader.Elector.Acquiring.{IsReady, IsWaiting, last_at, round-IsWaiting}

-- Of the rounds of an election, the one that won it: up to it the replica waited, and its attempt,
-- which was not cut off, was answered with `held`. Its start is `began`.
pub record Won {W : Type 0} (a : LeaseApi W) (c : LeaderElectionConfig) (start : Acquiring W)
    (rounds : List Round) (began : ℕ) : Type 0 where
  pub before : List Round
  pub winning : Round
  pub rest : List Round
  pub elector : LeaderElector
  pub env : W
  pub split : rounds ≡ before ++ winning ∷ rest
  pub waited : acquire a start before ≡ waiting elector env began
  pub in_time : winning.took ≤ c.renew_deadline
  pub answered : (try_acquire_or_renew a elector began winning.now_micro env).0.0 ≡ ok held

module _ {W : Type 0} (a : LeaseApi W) (vs : Versions a) (c : LeaderElectionConfig) where
  abbrev AnsweredHeld :
      (Result KubeGenericError Attempt × LeaderElector) × W → ℕ → Acquiring W → Type 0
  AnsweredHeld x at (waiting el w now) = Unit {0}
  AnsweredHeld x at (acquired el w now) = (x.0.0 ≡ ok held) × (last_observed el.observed now ≡ at)

  answered-held :
      (x : (Result KubeGenericError Attempt × LeaderElector) × W) (at now retry : ℕ)
      → Left a vs at x
      → AnsweredHeld x at (acquire_answered a x now retry)
  answered-held ((ok held, el), w) at now retry (k, h) = (refl, last_at a vs c el.observed at now h)
  answered-held ((ok (held_by_other o), el), w) at now retry k = tt
  answered-held ((ok conflict, el), w) at now retry k = tt
  answered-held ((err x, el), w) at now retry k = tt

  abbrev RoundHeld : LeaderElector → W → ℕ → Round → Acquiring W → Type 0
  RoundHeld el w at r (waiting el' w' now') = Unit {0}
  RoundHeld el w at r (acquired el' w' now') =
      (r.took ≤ c.renew_deadline)
      × ((try_acquire_or_renew a el at r.now_micro w).0.0 ≡ ok held)
      × (last_observed el'.observed now' ≡ at)

  held_round :
      (el : LeaderElector) (w : W) (at : ℕ) (r : Round) (s : Acquiring W)
      → r.took ≤ c.renew_deadline
      → AnsweredHeld (try_acquire_or_renew a el at r.now_micro w) at s
      → RoundHeld el w at r s
  held_round el w at r (waiting el' w' now') le h = tt
  held_round el w at r (acquired el' w' now') le (h, l) = (le, h, l)

  round-held :
      (el : LeaderElector) (w : W) (at : ℕ) (r : Round)
      → IsReady a vs c el w
      → RoundHeld el w at r (acquire_round a el w at r)
  unfolding acquire_round
  round-held el w at r (e, k) =
      let same : el.config.renew_deadline ≡ c.renew_deadline = ap (λ x. x.renew_deadline) e in
      elim (Bool-cases (ltb el.config.renew_deadline r.took)) [
        | inl slow ↦ rw slow tt
        | inr quick ↦ rw quick (
            held_round el w at r _ (ground arith) (
              answered-held (try_acquire_or_renew a el at r.now_micro w) at (at + r.took)
                el.config.retry_period (try_acquire_or_renew-Left a vs el at r.now_micro w k)))
      ]

  abbrev pub HasWon : Acquiring W → List Round → Acquiring W → Type 0
  HasWon start rounds (waiting el w now) = Unit {0}
  HasWon start rounds (acquired el w now) = Won a c start rounds (last_observed el.observed now)

  later-HasWon :
      (el : LeaderElector) (w : W) (at : ℕ) (r : Round) (rs : List Round) (s final : Acquiring W)
      → acquire_round a el w at r ≡ s
      → HasWon s rs final
      → HasWon (waiting el w at) (r ∷ rs) final
  unfolding acquire
  later-HasWon el w at r rs s (waiting el' w' now') e h = tt
  later-HasWon el w at r rs s (acquired el' w' now') e h = record {
    before = r ∷ h.before;
    winning = h.winning;
    rest = h.rest;
    elector = h.elector;
    env = h.env;
    split = ap (◌∷◌ r) h.split;
    waited = ap (λ x. acquire a x h.before) e ∙ h.waited;
    in_time = h.in_time;
    answered = h.answered;
  }

  first-Won :
      (el : LeaderElector) (w : W) (at : ℕ) (r : Round) (rs : List Round)
      → r.took ≤ c.renew_deadline
      → (try_acquire_or_renew a el at r.now_micro w).0.0 ≡ ok held
      → Won a c (waiting el w at) (r ∷ rs) at
  unfolding acquire
  first-Won el w at r rs le h = record {
    before = [];
    winning = r;
    rest = rs;
    elector = el;
    env = w;
    split = refl;
    waited = refl;
    in_time = le;
    answered = h;
  }

  round-HasWon :
      (el : LeaderElector) (w : W) (at : ℕ) (r : Round) (rs : List Round) (s : Acquiring W)
      → acquire_round a el w at r ≡ s
      → RoundHeld el w at r s
      → IsWaiting a vs c s
      → ((el' : LeaderElector) (w' : W) (at' : ℕ)
          → IsReady a vs c el' w'
          → HasWon (waiting el' w' at') rs (acquire a (waiting el' w' at') rs))
      → HasWon (waiting el w at) (r ∷ rs) (acquire a s rs)
  unfolding acquire
  round-HasWon el w at r rs (waiting el' w' now') e h ready next =
      later-HasWon el w at r rs (waiting el' w' now') (acquire a (waiting el' w' now') rs) e
        (next el' w' now' ready)
  round-HasWon el w at r rs (acquired el' w' now') e (le, h, l) ready next =
      subst (Won a c (waiting el w at) (r ∷ rs)) (sym l) (first-Won el w at r rs le h)

  -- An `acquire` that returned was answered with `held` in one of its rounds, at the time that its
  -- elector observed.
  pub acquire-HasWon :
      (el : LeaderElector) (w : W) (at : ℕ) (rs : List Round)
      → IsReady a vs c el w
      → HasWon (waiting el w at) rs (acquire a (waiting el w at) rs)
  unfolding acquire
  acquire-HasWon el w at [] h = tt
  acquire-HasWon el w at (r ∷ rs) h =
      round-HasWon el w at r rs (acquire_round a el w at r) refl (round-held el w at r h)
        (round-IsWaiting a vs c el w at r h) (λ el' w' at' h'. acquire-HasWon el' w' at' rs h')

module _ {W : Type 0} (a : LeaseApi W) (began : ℕ) where
  -- The last renewal is not before the loop began.
  abbrev pub IsSince : Renewing W → Type 0
  IsSince (renewing el w last_renew now) = (began ≤ last_renew) × (last_renew ≤ now)
  IsSince (lost last_renew now e) = began ≤ last_renew

  answered-IsSince :
      (x : (Result KubeGenericError Attempt × LeaderElector) × W) (last_renew started now : ℕ)
      → began ≤ last_renew
      → last_renew ≤ started
      → started ≤ now
      → IsSince (renew_answered a x last_renew started now)
  answered-IsSince ((ok held, el), w) l s n h p q = (omega arith, q)
  answered-IsSince ((ok (held_by_other o), el), w) l s n h p q = h
  answered-IsSince ((ok conflict, el), w) l s n h p q = (h, omega arith)
  answered-IsSince ((err x, el), w) l s n h p q = (h, omega arith)

  round-IsSince :
      (el : LeaderElector) (w : W) (last_renew now : ℕ) (r : Round)
      → began ≤ last_renew
      → last_renew ≤ now
      → IsSince (renew_round a el w last_renew now r)
  unfolding renew_round
  round-IsSince el w l now r h le =
      let deadline = l + el.config.renew_deadline in
      let start = now + el.config.retry_period in
      elim (Bool-cases (leb deadline start)) [
        | inl late ↦ rw late h
        | inr early ↦ elim (Bool-cases (ltb deadline (start + r.took))) [
          | inl slow ↦ rw (early, slow) h
          | inr quick ↦
              rw (early, quick)
                (answered-IsSince (try_acquire_or_renew a el start r.now_micro w) l start
                  (start + r.took) h (omega arith) (omega arith))
        ]
      ]

  rounds-IsSince : (s : Renewing W) (rs : List Round) → IsSince s → IsSince (renew_rounds a s rs)
  unfolding renew_rounds
  rounds-IsSince (lost l now e) rs h = h
  rounds-IsSince (renewing el w l now) [] h = h
  rounds-IsSince (renewing el w l now) (r ∷ rs) (h, le) =
      rounds-IsSince (renew_round a el w l now r) rs (round-IsSince el w l now r h le)

module _ {W : Type 0} (a : LeaseApi W) where
  -- A renewal loop starts at the last observation.
  pub renew_until_lost-IsSince :
      (el : LeaderElector) (w : W) (now : ℕ) (rs : List Round)
      → last_observed el.observed now ≤ now
      → IsSince a (last_observed el.observed now) (renew_until_lost a el w now rs)
  unfolding renew_until_lost
  renew_until_lost-IsSince el w now rs le =
      rounds-IsSince a (last_observed el.observed now)
        (renewing el w (last_observed el.observed now) now) rs (omega arith, le)
