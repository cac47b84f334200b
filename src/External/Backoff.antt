-- ===== src/External/Backoff.antt =====
-- crates/koprs-external/src/watcher.rs: the waits of the poll loop.
use native.Mathlib.Nat.{pow-suc, zero-add, suc-add, le_refl}
use mathlib.Core.List.{append-nil, append_assoc}
use koprs.Prelude.{
  ℕ, zero, suc, ◌+◌, ◌*◌, ◌^◌, ◌≤◌, ◌≡◌, refl, sym, subst, ap, ◌∙◌, false, List, [], ◌∷◌, ◌++◌, min,
  Result, ok, err, arith, ◌-◌, Option-cases, inl, inr, if_false,
}
use koprs.External.{ExternalError, internal, ExternalEvent}
use koprs.External.Watcher.{
  WatchConfig, backoff_wait, duration_max, saturating_succ, Turn, Watch, polled, after_poll, turn,
  watch_external_with_config,
}

pow_mono : (m k : ℕ) → 2 ^ m ≤ 2 ^ (k + m)
pow_mono m zero = rw zero-add (le_refl (2 ^ m))
pow_mono m (suc k) = rw (suc-add, pow-suc) (omega (arith, pow_mono m k))

pow-le : (m n : ℕ) → m ≤ n → 2 ^ m ≤ 2 ^ n
pow-le m n h = subst (λ x. 2 ^ m ≤ 2 ^ x) (omega arith) (pow_mono m (n - m))

min-of_le : (n : ℕ) → n ≤ 30 → min n 30 ≡ n
min-of_le n h = omega arith

min_mono : (m n : ℕ) → m ≤ n → min m 30 ≤ min n 30
min_mono m n h = omega arith

mul_mono : (b m n : ℕ) → m ≤ n → b * m ≤ b * n
mul_mono b m n h = grind arith

-- A wait never passes the cap nor falls when the errors go on, and below the 31st error it is the
-- doubled interval as long as that is below the cap and the longest `Duration`.
pub backoff_wait_bounds :
    (base m n cap : ℕ)
    → m ≤ n
    → (backoff_wait base n cap ≤ cap)
      × (backoff_wait base m cap ≤ backoff_wait base n cap)
      × (n ≤ 30
          → base * 2 ^ n ≤ cap
          → base * 2 ^ n ≤ duration_max
          → backoff_wait base n cap ≡ base * 2 ^ n)
unfolding backoff_wait
backoff_wait_bounds base m n cap h = (
  omega arith,
  omega (
    arith,
    mul_mono base (2 ^ min m 30) (2 ^ min n 30) (pow-le (min m 30) (min n 30) (min_mono m n h)),
  ),
  λ few fits short. rw (min-of_le n few) (omega arith),
)

module _ {S A : Type 0} (poll : S → Result ExternalError (List (ExternalEvent A)) × S) where
  -- No poll succeeds.
  abbrev pub IsFailing : Type 0
  IsFailing = (s : S) → (e : ExternalError) × ((poll s).0 ≡ err e)

  -- The waits after `n` errors, for `k` further ones.
  abbrev pub waits : WatchConfig → ℕ → List (Turn S) → List ℕ
  waits c n [] = []
  waits c n (t ∷ ts) =
      backoff_wait c.interval (saturating_succ n) c.max_backoff ∷ waits c (saturating_succ n) ts

  polled_fails :
      (c : WatchConfig) (s : S) (t : Turn S)
      → IsFailing
      → (e : ExternalError) × ((polled poll c s t).0 ≡ err e)
  polled_fails c s t bad = elim (Option-cases c.poll_timeout) [
    | inl never ↦ rw never (bad s)
    | inr (limit, set) ↦ elim (Option-cases t.timed_out) [
      | inl quick ↦ rw (set, quick) (bad s)
      | inr (left, slow) ↦ rw (set, slow) (internal "poll timed out", refl)
    ]
  ]

  after_failure :
      (c : WatchConfig) (v : Watch S A) (t : Turn S)
      (x : Result ExternalError (List (ExternalEvent A)) × S) (e : ExternalError)
      → x.0 ≡ err e
      → let v' = after_poll poll c v t x in
        (v'.stopped ≡ false)
        × (v'.delivered ≡ v.delivered)
        × (v'.consecutive_errors ≡ saturating_succ v.consecutive_errors)
        × (v'.slept
            ≡ v.slept
              ++ backoff_wait c.interval (saturating_succ v.consecutive_errors) c.max_backoff ∷ [])
  after_failure c v t (ok events, s) e h = cc
  after_failure c v t (err x, s) e h = (refl, refl, refl, refl)

  turn_fails :
      (c : WatchConfig) (v : Watch S A) (t : Turn S)
      → IsFailing
      → v.stopped ≡ false
      → let v' = turn poll c v t in
        (v'.stopped ≡ false)
        × (v'.delivered ≡ v.delivered)
        × (v'.consecutive_errors ≡ saturating_succ v.consecutive_errors)
        × (v'.slept
            ≡ v.slept
              ++ backoff_wait c.interval (saturating_succ v.consecutive_errors) c.max_backoff ∷ [])
  unfolding turn
  turn_fails c v t bad on =
      let (e, failed) = polled_fails c v.source t bad in
      let step = if_false v.stopped v (after_poll poll c v t (polled poll c v.source t)) on in
      let (on', same, errors, slept) = after_failure c v t (polled poll c v.source t) e failed in
      (
        ap (λ u. u.stopped) step ∙ on',
        ap (λ u. u.delivered) step ∙ same,
        ap (λ u. u.consecutive_errors) step ∙ errors,
        ap (λ u. u.slept) step ∙ slept,
      )

  -- While every poll fails, the watcher goes on, delivers nothing, and sleeps for the waits of its
  -- successive errors.
  pub watch-failing :
      (c : WatchConfig) (v : Watch S A) (ts : List (Turn S))
      → IsFailing
      → v.stopped ≡ false
      → let v' = watch_external_with_config poll c v ts in
        (v'.stopped ≡ false)
        × (v'.delivered ≡ v.delivered)
        × (v'.slept ≡ v.slept ++ waits c v.consecutive_errors ts)
  unfolding watch_external_with_config
  watch-failing c v [] bad on = (on, refl, sym (append-nil v.slept))
  watch-failing c v (t ∷ ts) bad on =
      let u = turn poll c v t in
      let (on', same, errors, slept) = turn_fails c v t bad on in
      let (still, none_sent, rest) = watch-failing c u ts bad on' in
      (
        still,
        none_sent ∙ same,
        rest
            ∙ ap (λ n. u.slept ++ waits c n ts) errors
            ∙ ap (λ l. l ++ waits c (saturating_succ v.consecutive_errors) ts) slept
            ∙ append_assoc v.slept _ _,
      )
