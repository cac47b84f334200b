-- ===== src/Controller/Reconcile.antt =====
-- crates/koprs/src/controller.rs: `Reconciler`, and the closure of `run` that calls it with a
-- timeout and records the outcome.
use koprs.Prelude.{
  ℕ, String, Option, none, some, List, [], ◌∷◌, ltb, if◌then◌else◌, Result, ok, err,
}
use koprs.Prelude.Tasks.{Task}
use koprs.Observability.{Metrics, record_success, record_failure}
use koprs.Leader.Config.{from_secs}

pub data Action : Type 0 where
  requeue : ℕ → Action
  await_change : Action

pub record Reconciler (W CR E : Type 0) : Type 0 where
  pub reconcile : CR → Task W E Action
  pub error_policy : CR → E → Action
  pub error_label : E → String

-- The default methods.
unfoldable pub error_policy : {CR E : Type 0} → CR → E → Action
error_policy cr e = requeue (from_secs 30)

unfoldable pub error_label : {E : Type 0} → E → String
error_label e = "reconcile_error"

-- A call: how long it takes, the time that the closure measures, and what a timeout leaves of it.
pub record Call (W CR : Type 0) : Type 0 where
  pub cr : CR
  pub took : ℕ
  pub elapsed : ℕ
  pub left : W

module _ {W CR E : Type 0} (r : Reconciler W CR E) (limit : Option ℕ) (kind : String) where
  -- `Err(t)` is a timeout.
  abbrev pub outcome : Call W CR → W → Result ℕ (Result E Action) × W
  outcome call w = elim limit [
    | none ↦ (ok (r.reconcile call.cr w).0, (r.reconcile call.cr w).1)
    | some t ↦
        if ltb t call.took
        then (err t, call.left)
        else (ok (r.reconcile call.cr w).0, (r.reconcile call.cr w).1)
  ]

  abbrev pub record_result : Metrics → Result E Action → ℕ → Metrics
  record_result m (ok a) elapsed = record_success m kind elapsed
  record_result m (err e) elapsed = record_failure m kind (r.error_label e) elapsed

  abbrev pub record_outcome : Metrics → Result ℕ (Result E Action) → ℕ → Metrics
  record_outcome m (ok result) elapsed = record_result m result elapsed
  record_outcome m (err t) elapsed = record_failure m kind "timeout" elapsed

  abbrev pub answer : Result ℕ (Result E Action) → Result E Action
  answer (ok result) = result
  answer (err t) = ok (requeue t)

  abbrev pub recorded : Option Metrics → Result ℕ (Result E Action) → ℕ → Option Metrics
  recorded none o elapsed = none
  recorded (some m) o elapsed = some (record_outcome m o elapsed)

  unfoldable pub reconcile_once :
      Call W CR → Option Metrics → W → (Result E Action × Option Metrics) × W
  unfolding record_success record_failure
  reconcile_once call m w =
      let (o, w') = outcome call w in ((answer o, recorded m o call.elapsed), w')

  -- The calls of a run, with the counters that they share.
  unfoldable pub reconcile_all : List (Call W CR) → Option Metrics → W → Option Metrics × W
  unfolding reconcile_once
  reconcile_all [] m w = (m, w)
  reconcile_all (call ∷ calls) m w =
      let ((result, m'), w') = reconcile_once call m w in reconcile_all calls m' w'
