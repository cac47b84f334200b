-- ===== src/Resources.antt =====
-- crates/koprs/src/resources.rs: create, read, delete and wait for resources. A poll loop runs over
-- the rounds that the environment grants; a sleep is recorded by its length in nanoseconds.
pub mod Outcomes
pub mod Waiting
pub mod Metadata
pub mod Listing
pub mod Merging
pub mod Patched
pub mod Examples
use koprs.Prelude.{
  ℕ, ◌+◌, ◌*◌, ◌≡◌, String, Bool, true, false, Option, none, some, List, [], ◌∷◌, ◌==◌, ltb,
  if◌then◌else◌, Result, ok, err, ok_or, map_err, is_some, null,
}
use koprs.Prelude.Tasks.{Task, ◌>>=◌, done}
use koprs.Error.{KubeError, KubeGenericError, api, kube, missing_metadata}
use koprs.Kube.{KubeResource, ApiServer, DeleteParams, Target}
use koprs.Scope.{Scope, into_api}
use koprs.Leader.Config.{from_secs}

pub data EnsureOutcome (T : Type 0) : Type 0 where
  created : T → EnsureOutcome T
  updated : T → EnsureOutcome T
  unchanged : T → EnsureOutcome T

unfoldable pub into_resource : {T : Type 0} → EnsureOutcome T → T
into_resource (created r) = r
into_resource (updated r) = r
into_resource (unchanged r) = r

unfoldable pub was_changed : {T : Type 0} → EnsureOutcome T → Bool
was_changed (created r) = true
was_changed (updated r) = true
was_changed (unchanged r) = false

-- A 404 is an answer here, and no error.
abbrev pub delete_answer : Result KubeError (Unit {0}) → Result KubeGenericError Bool
delete_answer (ok u) = ok true
delete_answer (err (api code)) = if code == 404 then ok false else err (kube (api code))
delete_answer (err e) = err (kube e)

abbrev pub get_answer : {T : Type 0} → Result KubeError T → Result KubeGenericError (Option T)
get_answer (ok r) = ok (some r)
get_answer (err (api code)) = if code == 404 then ok none else err (kube (api code))
get_answer (err e) = err (kube e)

abbrev pub opt_is : Option ℕ → ℕ → Bool
opt_is none v = false
opt_is (some w) v = w == v

-- The match on `live_rv`.
abbrev pub classify : {T : Type 0} → Option ℕ → Option ℕ → T → EnsureOutcome T
classify none applied_rv r = created r
classify (some old) applied_rv r = if opt_is applied_rv old then unchanged r else updated r

-- `Duration::min`.
abbrev pub min_duration : ℕ → ℕ → ℕ
min_duration a b = if ltb b a then b else a

abbrev pub error_backoff : ℕ → ℕ
error_backoff interval = min_duration (interval * 2) (from_secs 60)

module _ {W T : Type 0} (k : KubeResource T) (server : ApiServer W T) where
  unfoldable pub required_name : T → Result KubeGenericError String
  required_name r = ok_or (k.meta r).name (missing_metadata "name")

  unfoldable pub delete_resource : Scope → String → Task W KubeGenericError Bool
  delete_resource scope name w =
      let answer =
        server.delete (into_api scope) name (record { background = false; uid_precondition = none })
          w in
      (delete_answer answer.0, answer.1)

  unfoldable pub get_resource : Scope → String → Task W KubeGenericError (Option T)
  get_resource scope name w =
      let answer = server.get (into_api scope) name w in (get_answer answer.0, answer.1)

  unfoldable pub exists : Scope → String → Task W KubeGenericError Bool
  unfolding get_resource
  exists scope name = do found ← get_resource scope name; done (ok (is_some found))

  unfoldable pub apply_resource : Scope → T → String → Task W KubeGenericError T
  unfolding required_name
  apply_resource scope r field_manager = do
    name ← done (required_name r)
    λ w.
        let answer = server.apply (into_api scope) name r field_manager w in
        (map_err kube answer.0, answer.1)

  abbrev pub version_of : Option T → Option ℕ
  version_of none = none
  version_of (some r) = (k.meta r).resource_version

  unfoldable pub ensure_resource : Scope → T → String → Task W KubeGenericError (EnsureOutcome T)
  unfolding required_name get_resource apply_resource
  ensure_resource scope r field_manager = do
    name ← done (required_name r)
    live ← get_resource scope name
    applied ← apply_resource scope r field_manager
    done (ok (classify (version_of live) (k.meta applied).resource_version applied))

  -- The loop of `wait_for_resources`: found, or still waiting after the sleeps.
  abbrev pub list_round : Result KubeError (List T) → ℕ → Result ℕ (List T)
  list_round (ok []) interval = err interval
  list_round (ok (r ∷ rs)) interval = ok (r ∷ rs)
  list_round (err (api code)) interval =
      if code == 404
      then err (min_duration interval (from_secs 60))
      else err (error_backoff interval)
  list_round (err e) interval = err (error_backoff interval)

  -- One turn of `wait_for_condition`.
  abbrev pub condition_round : (T → Bool) → Result KubeGenericError (Option T) → ℕ → Result ℕ T
  condition_round p (ok (some r)) interval = if p r then ok r else err interval
  condition_round p (ok none) interval = err interval
  condition_round p (err e) interval = err (error_backoff interval)

-- A poll loop: `turn` ends it with `ok`, or says how long to sleep. Between two turns others act on
-- the environment, as `rounds` says. The answer is what the loop returned, if it did, with the
-- sleeps before, the environment and what is left of the rounds.
module _ {W A : Type 0} (turn : W → Result ℕ A × W) where
  abbrev pub poll_next :
      (W → List ℕ → Option A × List ℕ × W) → Result ℕ A × W → List ℕ → Option A × List ℕ × W
  poll_next go (ok a, w) slept = (some a, slept, w)
  poll_next go (err pause, w) slept = go w (pause ∷ slept)

  unfoldable pub poll : List (W → W) → W → List ℕ → Option A × List ℕ × W
  poll [] w slept = (none, slept, w)
  poll (others ∷ rounds) w slept = poll_next (poll rounds) (turn (others w)) slept

module _ {W T : Type 0} (k : KubeResource T) (server : ApiServer W T) where
  unfoldable pub wait_for_resources : Scope → ℕ → List (W → W) → W → Option (List T) × List ℕ × W
  unfolding poll
  wait_for_resources scope interval rounds w =
      poll
        (λ v.
          let answer = server.list (into_api scope) none v in
          (list_round k server answer.0 interval, answer.1))
        rounds w []

  unfoldable pub wait_for_condition :
      Scope → String → ℕ → (T → Bool) → List (W → W) → W → Option T × List ℕ × W
  unfolding poll get_resource
  wait_for_condition scope name interval p rounds w =
      poll
        (λ v.
          let answer = get_resource k server scope name v in
          (condition_round k server p answer.0 interval, answer.1))
        rounds w []
