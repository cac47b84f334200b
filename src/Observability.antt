-- ===== src/Observability.antt =====
-- crates/koprs/src/observability.rs: the collectors. A counter vector is a function of its labels
-- and a histogram keeps what it observed. The registry and the encoder of prometheus are
-- parameters.
use koprs.Prelude.{
  ℕ, suc, String, List, [], ◌∷◌, ◌++◌, ◌&&◌, str_eq, if◌then◌else◌, Result, ok, err, map_err,
}
use Prim.Native.String
use koprs.Error.{KubeGenericError, internal}

pub record Metrics : Type 0 where
  pub reconciliations : ℕ
  pub errors : String → String → ℕ
  pub reconcile_duration : String → List ℕ

unfoldable pub new : Metrics
new = record { reconciliations = 0; errors = λ kind error. 0; reconcile_duration = λ kind. [] }

abbrev pub inc : (String → String → ℕ) → String → String → String → String → ℕ
inc f kind error k e = if str_eq kind k && str_eq error e then suc (f k e) else f k e

abbrev pub observe : (String → List ℕ) → String → ℕ → String → List ℕ
observe f kind duration k = if str_eq kind k then f k ++ duration ∷ [] else f k

unfoldable pub record_success : Metrics → String → ℕ → Metrics
record_success m kind duration = record m {
  reconciliations = suc m.reconciliations;
  reconcile_duration = observe m.reconcile_duration kind duration;
}

unfoldable pub record_failure : Metrics → String → String → ℕ → Metrics
record_failure m kind error duration = record {
  reconciliations = suc m.reconciliations;
  errors = inc m.errors kind error;
  reconcile_duration = observe m.reconcile_duration kind duration;
}

-- The collectors by their full names, as they are registered.
pub data Collector : Type 0 where
  reconciliations_total : String → Collector
  reconcile_errors_total : String → Collector
  reconcile_duration_seconds : String → Collector

abbrev pub register_error : String → KubeGenericError
register_error e = internal (String.◌++◌ "failed to register metrics: " e)

-- `Registry::register` is a parameter: it says whether it takes a collector, and what it then has.
module _ {R : Type 0} (register_one : R → Collector → Result String (Unit {0}) × R) where
  abbrev pub register_all : List Collector → R → Result KubeGenericError (Unit {0}) × R
  register_all [] r = (ok tt, r)
  register_all (c ∷ cs) r =
      let (out, r') = register_one r c in
      elim out [ ok u ↦ register_all cs r' | err e ↦ (err (register_error e), r') ]

  abbrev map_ok : Metrics → Result KubeGenericError (Unit {0}) → Result KubeGenericError Metrics
  map_ok m (ok u) = ok m
  map_ok m (err e) = err e

  -- `Metrics::register`, whose collectors have the namespace in their names: the first one that
  -- is refused ends it.
  unfoldable pub register : Metrics → String → R → Result KubeGenericError Metrics × R
  register m namespace r =
      let (out, r') =
        register_all
          (reconciliations_total namespace
            ∷ reconcile_errors_total namespace
            ∷ reconcile_duration_seconds namespace
            ∷ [])
          r in
      (map_ok m out, r')

  -- `Metrics::new_registered`.
  unfoldable pub new_registered : String → R → Result KubeGenericError Metrics × R
  unfolding new register
  new_registered namespace = register new namespace

-- The encoder and the decoder of UTF-8 are parameters.
module _ {R Bytes : Type 0} (encode : R → Result String Bytes)
    (from_utf8 : Bytes → Result String String) (display : KubeGenericError → String) where
  unfoldable pub render : R → Result KubeGenericError String
  render registry = elim (encode registry) [
    | err e ↦ err (internal (String.◌++◌ "failed to encode metrics: " e))
    | ok buffer ↦
        map_err (λ e. internal (String.◌++◌ "metrics output was not valid UTF-8: " e))
          (from_utf8 buffer)
  ]

  -- `metrics_handler`.
  unfoldable pub metrics_handler : R → ℕ × String
  unfolding render
  metrics_handler registry = elim (render registry) [
    | ok body ↦ (200, body)
    | err e ↦ (500, display e)
  ]
