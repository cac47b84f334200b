-- ===== src/Resources/Waiting.antt =====
-- crates/koprs/src/resources.rs: the poll loops return only what they wait for.
use koprs.Prelude.{
  ℕ, ◌≡◌, ◌≢◌, refl, ◌⊎◌, inl, inr, String, Bool, true, Option, none, some, List, [], ◌∷◌, ◌++◌,
  arith, ◌*◌, min, Result, ok, err, All, Bool-cases,
}
use koprs.Error.{KubeGenericError}
use koprs.Kube.{KubeResource, ApiServer}
use koprs.Scope.{Scope, into_api}
use koprs.Resources.{
  min_duration, error_backoff, list_round, condition_round, poll, poll_next, get_resource,
  wait_for_condition,
}

-- A loop that keeps `P` of what it returns and `Q` of its pauses.
abbrev pub Polls : {W A : Type 0} → (A → Type 0) → (ℕ → Type 0) → Option A × List ℕ × W → Type 0
Polls P Q (none, slept, w) = All Q slept
Polls P Q (some a, slept, w) = P a × All Q slept

abbrev Turns : {A : Type 0} → (A → Type 0) → (ℕ → Type 0) → Result ℕ A → Type 0
Turns P Q (ok a) = P a
Turns P Q (err pause) = Q pause

module _ {W A : Type 0} (turn : W → Result ℕ A × W) (P : A → Type 0) (Q : ℕ → Type 0) where
  poll_next-Polls :
      (go : W → List ℕ → Option A × List ℕ × W) (x : Result ℕ A × W) (slept : List ℕ)
      → ((w : W) (s : List ℕ) → All Q s → Polls P Q (go w s))
      → Turns P Q x.0
      → All Q slept
      → Polls P Q (poll_next turn go x slept)
  poll_next-Polls go (ok a, w) slept later here before = (here, before)
  poll_next-Polls go (err pause, w) slept later here before = later w (pause ∷ slept) (here, before)

  poll-Polls :
      (rounds : List (W → W)) (w : W) (slept : List ℕ)
      → ((v : W) → Turns P Q (turn v).0)
      → All Q slept
      → Polls P Q (poll turn rounds w slept)
  unfolding poll
  poll-Polls [] w slept each before = before
  poll-Polls (others ∷ rounds) w slept each before =
      poll_next-Polls (poll turn rounds) (turn (others w)) slept (λ v s. poll-Polls rounds v s each)
        (each (others w)) before

module _ {W A : Type 0} (turn : W → Result ℕ A × W) where
  poll_next-returns :
      (go : W → List ℕ → Option A × List ℕ × W) (x : Result ℕ A × W) (slept : List ℕ)
      → ((w : W) (s : List ℕ) → (go w s).0 ≢ none)
      → (poll_next turn go x slept).0 ≢ none
  poll_next-returns go (ok a, w) slept later = λ h. cc
  poll_next-returns go (err pause, w) slept later = later w (pause ∷ slept)

  poll_next-ok :
      (go : W → List ℕ → Option A × List ℕ × W) (x : Result ℕ A × W) (slept : List ℕ) (a : A)
      → x.0 ≡ ok a
      → (poll_next turn go x slept).0 ≢ none
  poll_next-ok go (ok b, w) slept a e = λ h. cc
  poll_next-ok go (err pause, w) slept a e = cc

  poll-returns :
      (before rest : List (W → W)) (others : W → W) (w : W) (slept : List ℕ)
      → ((v : W) → (a : A) × ((turn (others v)).0 ≡ ok a))
      → (poll turn (before ++ others ∷ rest) w slept).0 ≢ none
  unfolding poll
  poll-returns [] rest others w slept good =
      poll_next-ok (poll turn rest) (turn (others w)) slept (good w).0 (good w).1
  poll-returns (b ∷ before) rest others w slept good =
      poll_next-returns (poll turn (before ++ others ∷ rest)) (turn (b w)) slept
        (λ v s. poll-returns before rest others v s good)

-- A minute, in nanoseconds.
abbrev pub minute : ℕ
minute = 60 * 1000000000

-- The pauses of a loop: the interval, or after an error the interval or its double, but at most a
-- minute.
abbrev pub IsPause : ℕ → ℕ → Type 0
IsPause interval s = (s ≡ interval) ⊎ ((s ≡ min interval minute) ⊎ (s ≡ min (interval * 2) minute))

min_duration-min : (a b : ℕ) → min_duration a b ≡ min a b
min_duration-min a b = ground arith

error_backoff-min : (interval : ℕ) → error_backoff interval ≡ min (interval * 2) minute
error_backoff-min interval = min_duration-min (interval * 2) minute

module _ {W T : Type 0} (k : KubeResource T) (server : ApiServer W T) where
  condition_round-Turns :
      (p : T → Bool) (answer : Result KubeGenericError (Option T)) (interval : ℕ)
      → Turns (λ r. p r ≡ true) (IsPause interval) (condition_round k server p answer interval)
  condition_round-Turns p (ok (some r)) interval = elim (Bool-cases (p r)) [
    | inl good ↦ rw good good
    | inr bad ↦ rw bad (inl refl)
  ]
  condition_round-Turns p (ok none) interval = inl refl
  condition_round-Turns p (err e) interval = inr (inr (error_backoff-min interval))

  abbrev list_turn : Scope → ℕ → W → Result ℕ (List T) × W
  list_turn scope interval v = (
    list_round k server (server.list (into_api scope) none v).0 interval,
    (server.list (into_api scope) none v).1,
  )

  abbrev condition_turn : Scope → String → ℕ → (T → Bool) → W → Result ℕ T × W
  condition_turn scope name interval p v = (
    condition_round k server p (get_resource k server scope name v).0 interval,
    (get_resource k server scope name v).1,
  )

  wait_for_condition-Polls :
      (scope : Scope) (name : String) (interval : ℕ) (p : T → Bool) (rounds : List (W → W)) (w : W)
      → Polls
          (λ r. p r ≡ true)
          (IsPause interval)
          (wait_for_condition k server scope name interval p rounds w)
  unfolding wait_for_condition
  wait_for_condition-Polls scope name interval p rounds w =
      poll-Polls (condition_turn scope name interval p) (λ r. p r ≡ true) (IsPause interval) rounds
        w [] (λ v. condition_round-Turns p (get_resource k server scope name v).0 interval) tt

  -- `wait_for_condition` returns only a resource of which the predicate holds; and it returns by a
  -- round in which the server answers with such a resource, whatever errors and other answers came
  -- before.
  pub wait_for_condition-returns :
      (scope : Scope) (name : String) (interval : ℕ) (p : T → Bool) (before rest : List (W → W))
      (others : W → W) (w : W)
      → ((v : W)
          → (r : T) × ((server.get (into_api scope) name (others v)).0 ≡ ok r) × (p r ≡ true))
      → Polls
          (λ r. p r ≡ true)
          (IsPause interval)
          (wait_for_condition k server scope name interval p (before ++ others ∷ rest) w)
        × ((wait_for_condition k server scope name interval p (before ++ others ∷ rest) w).0 ≢ none)
  unfolding wait_for_condition get_resource
  wait_for_condition-returns scope name interval p before rest others w good = (
    wait_for_condition-Polls scope name interval p (before ++ others ∷ rest) w,
    poll-returns (condition_turn scope name interval p) before rest others w []
        (λ v. let (r, e, h) = good v in (r, rw (e, h))),
  )
