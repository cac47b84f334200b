-- ===== src/Controller/Counting.antt =====
-- crates/koprs/src/controller.rs: what the metrics say of the reconciles.
use koprs.Prelude.{
  ℕ, suc, ◌+◌, ◌≡◌, refl, ap, String, Bool, false, Option, none, some, List, [], ◌∷◌, ◌++◌, length,
  length-append, str_eq, eq_iff, eq_refl, arith, if◌then◌else◌, Result, ok, err,
}
use koprs.Observability.{Metrics, record_success, record_failure}
use koprs.Controller.Reconcile.{
  Action, Reconciler, Call, outcome, record_outcome, reconcile_once, reconcile_all,
}

module _ {W CR E : Type 0} (r : Reconciler W CR E) (limit : Option ℕ) (kind : String) where
  -- The label of a reconcile that failed.
  abbrev pub label_of : Result ℕ (Result E Action) → Option String
  label_of (ok (ok a)) = none
  label_of (ok (err e)) = some (r.error_label e)
  label_of (err t) = some "timeout"

  -- The labels of the reconciles of a run, in order.
  unfoldable pub labels_of : List (Call W CR) → W → List (Option String)
  labels_of [] w = []
  labels_of (call ∷ calls) w =
      let (o, w') = outcome r limit kind call w in label_of o ∷ labels_of calls w'

  abbrev is_label : String → Option String → Bool
  is_label e none = false
  is_label e (some l) = str_eq l e

  -- How often a label occurs.
  abbrev pub occurrences : String → List (Option String) → ℕ
  occurrences e [] = 0
  occurrences e (l ∷ ls) = (if is_label e l then 1 else 0) + occurrences e ls

  record_reconciliations :
      (m : Metrics) (o : Result ℕ (Result E Action)) (t : ℕ)
      → (record_outcome r limit kind m o t).reconciliations ≡ suc m.reconciliations
  unfolding record_success record_failure
  record_reconciliations m (ok (ok a)) t = refl
  record_reconciliations m (ok (err e)) t = refl
  record_reconciliations m (err x) t = refl

  record_errors :
      (m : Metrics) (o : Result ℕ (Result E Action)) (t : ℕ) (e : String)
      → (record_outcome r limit kind m o t).errors kind e
        ≡ (if is_label e (label_of o) then 1 else 0) + m.errors kind e
  unfolding record_success record_failure
  record_errors m (ok (ok a)) t e = omega arith
  record_errors m (ok (err x)) t e = ground (arith, eq_iff kind kind, eq_iff (r.error_label x) e)
  record_errors m (err x) t e = ground (arith, eq_iff kind kind, eq_iff "timeout" e)

  record_durations :
      (m : Metrics) (o : Result ℕ (Result E Action)) (t : ℕ)
      → (record_outcome r limit kind m o t).reconcile_duration kind
        ≡ m.reconcile_duration kind ++ t ∷ []
  unfolding record_success record_failure
  record_durations m (ok (ok a)) t = rw eq_refl
  record_durations m (ok (err x)) t = rw eq_refl
  record_durations m (err x) t = rw eq_refl

  -- Each reconcile is counted and timed once, and each failure once under its label.
  abbrev pub Counted : Metrics → List (Option String) → Option Metrics → Type 0
  Counted m ls none = ⊥
  Counted m ls (some m') =
      (m'.reconciliations ≡ m.reconciliations + length ls)
      × ((e : String) → m'.errors kind e ≡ m.errors kind e + occurrences e ls)
      × (length (m'.reconcile_duration kind) ≡ length (m.reconcile_duration kind) + length ls)

  after_first :
      (m : Metrics) (o : Result ℕ (Result E Action)) (t : ℕ) (ls : List (Option String))
      (m' : Option Metrics)
      → Counted (record_outcome r limit kind m o t) ls m'
      → Counted m (label_of o ∷ ls) m'
  after_first m o t ls none h = absurd h
  after_first m o t ls (some m') (n, es, ds) = (
    omega (arith, record_reconciliations m o t),
    λ e. omega (arith, es e, record_errors m o t e),
    omega (
      arith,
      ap length (record_durations m o t),
      length-append (m.reconcile_duration kind) (t ∷ []),
    ),
  )

  -- Over any sequence of reconciles, whatever they do to the environment, the counter of
  -- reconciles and the number of timings grow by the number of reconciles, and each error counter by
  -- the number of reconciles that failed with its label: the label of the error that was returned,
  -- or `timeout` for one that was dropped.
  pub reconcile_all-Counted :
      (calls : List (Call W CR)) (m : Metrics) (w : W)
      → Counted m (labels_of calls w) (reconcile_all r limit kind calls (some m) w).0
  unfolding reconcile_all reconcile_once labels_of
  reconcile_all-Counted [] m w = (omega arith, (λ e. omega arith), omega arith)
  reconcile_all-Counted (call ∷ calls) m w =
      let (o, w') = outcome r limit kind call w in
      after_first m o call.elapsed (labels_of calls w') _
        (reconcile_all-Counted calls (record_outcome r limit kind m o call.elapsed) w')
