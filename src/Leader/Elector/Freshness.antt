-- ===== src/Leader/Elector/Freshness.antt =====
-- crates/koprs/src/leader.rs: what an attempt knows after it, given that the server never gives a
-- resource version twice.
use koprs.Prelude.{
  ℕ, ◌≡◌, refl, sym, subst, String, Bool, true, false, Option, none, some, Result, ok, err, arith,
  Bool-cases, inl, inr, ◌==◌,
}
use koprs.Error.{KubeError, KubeGenericError, api, client}
use koprs.Leader.Lease.{Lease, MicroTime}
use koprs.Leader.Elector.Attempt.{
  Attempt, held, held_by_other, conflict, Observed, LeaderElector, Plan, finished, create, replace,
  decide, LeaseApi, changed, observe, after_get, after_write, carry_out, answer_get,
  try_acquire_or_renew,
}
use koprs.Leader.Elector.Expiry.{observe-new, observe-old}

-- Resource versions as the API server documents them: a version that was read or written has been
-- given out and stays so, and a write gets a version that was not given out before.
pub record Versions {W : Type 0} (a : LeaseApi W) : Type 1 where
  pub Given : W → ℕ → Type 0
  pub get_keeps : (name : String) (w : W) (v : ℕ) → Given w v → Given (a.get_opt name w).1 v
  pub create_keeps : (l : Lease) (w : W) (v : ℕ) → Given w v → Given (a.create l w).1 v
  pub replace_keeps :
      (name : String) (l : Lease) (w : W) (v : ℕ) → Given w v → Given (a.replace name l w).1 v
  pub get_given :
      (name : String) (w : W) (l : Lease)
      → (a.get_opt name w).0 ≡ ok (some l)
      → (v : ℕ) × (l.metadata.resource_version ≡ some v) × Given (a.get_opt name w).1 v
  pub create_new :
      (l : Lease) (w : W) (r : Lease)
      → (a.create l w).0 ≡ ok r
      → (v : ℕ) × (r.metadata.resource_version ≡ some v)
        × (Given w v → ⊥)
        × Given (a.create l w).1 v
  pub replace_new :
      (name : String) (l : Lease) (w : W) (r : Lease)
      → (a.replace name l w).0 ≡ ok r
      → (v : ℕ) × (r.metadata.resource_version ≡ some v)
        × (Given w v → ⊥)
        × Given (a.replace name l w).1 v

module _ {W : Type 0} (a : LeaseApi W) (vs : Versions a) where
  open vs use {Given, get_keeps, create_keeps, replace_keeps, get_given, create_new, replace_new}

  -- The observation is of a version that was given out.
  abbrev pub IsKnown : W → Option Observed → Type 0
  IsKnown w none = Unit {0}
  IsKnown w (some o) = (v : ℕ) × (o.resource_version ≡ some v) × Given w v

  -- The observation was made at a time.
  abbrev pub IsAt : ℕ → Option Observed → Type 0
  IsAt at none = ⊥
  IsAt at (some o) = o.observed_at ≡ at

  pub later_version :
      (w w' : W) (o : Option Observed)
      → ((v : ℕ) → Given w v → Given w' v)
      → IsKnown w o
      → IsKnown w' o
  later_version w w' none keep k = tt
  later_version w w' (some o) keep (v, e, g) = (v, e, keep v g)

  -- A version that was not given out is new to an elector.
  new_version :
      (w : W) (o : Option Observed) (v : ℕ)
      → IsKnown w o
      → (Given w v → ⊥)
      → changed o (some v) ≡ true
  new_version w none v k fresh = refl
  new_version w (some o) v (u, e, g) fresh = elim (Bool-cases (u == v)) [
    | inl same ↦ absurd (fresh (subst (λ x. Given w x) (ground arith) g))
    | inr other ↦ rw (e, other)
  ]

  observe-IsKnown :
      (el : LeaderElector) (l : Lease) (at v : ℕ) (w : W)
      → IsKnown w el.observed
      → l.metadata.resource_version ≡ some v
      → Given w v
      → IsKnown w (observe el l at).observed
  observe-IsKnown el l at v w k e g =
      elim (Bool-cases (changed el.observed l.metadata.resource_version)) [
        | inl new ↦ subst (λ x. IsKnown w x.observed) (sym (observe-new el l at new)) (v, e, g)
        | inr old ↦ subst (λ x. IsKnown w x.observed) (sym (observe-old el l at old)) k
      ]

  -- After a write at `at`.
  written-IsKnown :
      (el : LeaderElector) (r : Lease) (at v : ℕ) (w w' : W)
      → IsKnown w el.observed
      → r.metadata.resource_version ≡ some v
      → (Given w v → ⊥)
      → Given w' v
      → IsKnown w' (observe el r at).observed × IsAt at (observe el r at).observed
  written-IsKnown el r at v w w' k e fresh g =
      let new : changed el.observed r.metadata.resource_version ≡ true =
        subst (λ x. changed el.observed x ≡ true) (sym e) (new_version w el.observed v k fresh) in
      subst (λ x. IsKnown w' x.observed × IsAt at x.observed) (sym (observe-new el r at new))
        ((v, e, g), refl)

  -- What an attempt at `at` is to leave behind.
  abbrev pub Left : ℕ → (Result KubeGenericError Attempt × LeaderElector) × W → Type 0
  Left at ((ok held, el), w) = IsKnown w el.observed × IsAt at el.observed
  Left at ((ok (held_by_other h), el), w) = IsKnown w el.observed
  Left at ((ok conflict, el), w) = IsKnown w el.observed
  Left at ((err e, el), w) = IsKnown w el.observed

  write-Left :
      (el : LeaderElector) (at : ℕ) (x : Result KubeError Lease) (w w' : W)
      → IsKnown w el.observed
      → ((v : ℕ) → Given w v → Given w' v)
      → ((r : Lease)
          → x ≡ ok r
          → (v : ℕ) × (r.metadata.resource_version ≡ some v) × (Given w v → ⊥) × Given w' v)
      → Left at (after_write el at x, w')
  unfolding after_write
  write-Left el at (ok r) w w' k keep new =
      let (v, e, fresh, g) = new r refl in written-IsKnown el r at v w w' k e fresh g
  write-Left el at (err (api c)) w w' k keep new = elim (Bool-cases (c == 409)) [
    | inl clash ↦ rw clash (later_version w w' el.observed keep k)
    | inr other ↦ rw other (later_version w w' el.observed keep k)
  ]
  write-Left el at (err (client e)) w w' k keep new = later_version w w' el.observed keep k

  pub after_get-IsKnown :
      (el : LeaderElector) (at : ℕ) (micro : MicroTime) (found : Option Lease) (w : W)
      → IsKnown w el.observed
      → ((l : Lease)
          → ◌≡◌ {A = Result KubeError (Option Lease)} (ok found) (ok (some l))
          → (v : ℕ) × (l.metadata.resource_version ≡ some v) × Given w v)
      → IsKnown w (after_get el at micro found).0.observed
  unfolding after_get
  after_get-IsKnown el at micro none w k given = k
  after_get-IsKnown el at micro (some l) w k given =
      let (v, e, g) = given l refl in observe-IsKnown el l at v w k e g

  -- No plan that ends an attempt claims the lease.
  abbrev Unheld : Plan → Type 0
  Unheld (finished held) = ⊥
  Unheld p = Unit {0}

  carry_out-Left :
      (el : LeaderElector) (p : Plan) (at : ℕ) (w : W)
      → IsKnown w el.observed
      → Unheld p
      → Left at (carry_out a (el, p) at w)
  carry_out-Left el (finished held) at w k u = absurd u
  carry_out-Left el (finished (held_by_other h)) at w k u = k
  carry_out-Left el (finished conflict) at w k u = k
  carry_out-Left el (create l) at w k u =
      write-Left el at (a.create l w).0 w (a.create l w).1 k (create_keeps l w) (create_new l w)
  carry_out-Left el (replace l) at w k u =
      let name = el.config.name in
      write-Left el at (a.replace name l w).0 w (a.replace name l w).1 k (replace_keeps name l w)
        (replace_new name l w)

  decide-Unheld :
      (found : Option String) (we_hold expired : Bool) (l : Lease)
      → Unheld (decide found we_hold expired l)
  decide-Unheld none we_hold expired l = tt
  decide-Unheld (some h) true expired l = tt
  decide-Unheld (some h) false true l = tt
  decide-Unheld (some h) false false l = tt

  answer-Left :
      (el : LeaderElector) (at : ℕ) (micro : MicroTime) (r : Result KubeError (Option Lease))
      (w : W)
      → IsKnown w el.observed
      → ((l : Lease)
          → r ≡ ok (some l)
          → (v : ℕ) × (l.metadata.resource_version ≡ some v) × Given w v)
      → Left at (answer_get a el at micro r w)
  unfolding after_get
  answer-Left el at micro (err e) w k given = k
  answer-Left el at micro (ok none) w k given =
      carry_out-Left el (after_get el at micro none).1 at w k tt
  answer-Left el at micro (ok (some l)) w k given =
      let (v, e, g) = given l refl in
      carry_out-Left (observe el l at) _ at w (observe-IsKnown el l at v w k e g)
        (decide-Unheld _ _ _ _)

  -- An attempt that acquires or renews the lease leaves an observation that was made when the
  -- attempt started; every attempt leaves an observation of a version that was given out.
  pub try_acquire_or_renew-Left :
      (el : LeaderElector) (at : ℕ) (micro : MicroTime) (w : W)
      → IsKnown w el.observed
      → Left at (try_acquire_or_renew a el at micro w)
  unfolding try_acquire_or_renew
  try_acquire_or_renew-Left el at micro w k =
      let name = el.config.name in
      answer-Left el at micro (a.get_opt name w).0 (a.get_opt name w).1
        (later_version w (a.get_opt name w).1 el.observed (get_keeps name w) k) (get_given name w)
