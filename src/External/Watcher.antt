-- ===== src/External/Watcher.antt =====
-- crates/koprs-external/src/watcher.rs: the poll loop with its backoff. The source is a parameter: a
-- poll of its state. A turn of the loop is granted by the environment, which says whether the poll
-- timed out (the state is then what the dropped poll left) and how many of the events the receiver
-- still takes.
use koprs.Prelude.{
  ℕ, zero, suc, ◌+◌, ◌*◌, ◌^◌, Bool, true, false, Option, none, some, List, [], ◌∷◌, ◌++◌, ltb, min,
  if◌then◌else◌, Result, ok, err, u32_max,
}
use koprs.External.{ExternalError, internal, ExternalEvent}

-- `Duration::MAX` in nanoseconds.
abbrev pub duration_max : ℕ
duration_max = 18446744073709551615 * 1000000000 + 999999999

-- `Duration::saturating_mul`.
abbrev pub saturating_mul : ℕ → ℕ → ℕ
saturating_mul d n = min (d * n) duration_max

pub record WatchConfig : Type 0 where
  pub interval : ℕ
  pub max_backoff : ℕ
  pub poll_timeout : Option ℕ

unfoldable pub new : ℕ → WatchConfig
new interval = record {
  interval = interval;
  max_backoff = saturating_mul interval 32;
  poll_timeout = none;
}

unfoldable pub with_poll_timeout : WatchConfig → ℕ → WatchConfig
with_poll_timeout c timeout = record c { poll_timeout = some timeout }

unfoldable pub with_max_backoff : WatchConfig → ℕ → WatchConfig
with_max_backoff c max_backoff = record c { max_backoff = max_backoff }

-- `1u32.checked_shl(n.min(30))` is never `None`, since 30 < 32.
unfoldable pub backoff_wait : ℕ → ℕ → ℕ → ℕ
backoff_wait base consecutive_errors max =
    min (saturating_mul base (2 ^ min consecutive_errors 30)) max

-- `u32::saturating_add(1)`.
abbrev pub saturating_succ : ℕ → ℕ
saturating_succ n = if ltb n u32_max then n + 1 else n

pub record Turn (S : Type 0) : Type 0 where
  pub timed_out : Option S
  pub accepts : Option ℕ

-- The loop between two turns (or stopped): what was delivered, newest turn last, and the sleeps.
pub record Watch (S A : Type 0) : Type 0 where
  pub source : S
  pub consecutive_errors : ℕ
  pub delivered : List (ExternalEvent A)
  pub slept : List ℕ
  pub stopped : Bool

-- The events that a receiver takes before it is dropped, and whether it was dropped.
abbrev pub send_all : {A : Type 0} → Option ℕ → List A → List A × Bool
send_all none events = (events, false)
send_all (some n) [] = ([], false)
send_all (some zero) (e ∷ es) = ([], true)
send_all (some (suc n)) (e ∷ es) = let (sent, dropped) = send_all (some n) es in (e ∷ sent, dropped)

module _ {S A : Type 0} (poll : S → Result ExternalError (List (ExternalEvent A)) × S) where
  -- The poll, or its timeout, which only a configured one can be.
  abbrev pub polled : WatchConfig → S → Turn S → Result ExternalError (List (ExternalEvent A)) × S
  polled c s t = elim c.poll_timeout [
    | none ↦ poll s
    | some limit ↦ elim t.timed_out [
      | none ↦ poll s
      | some left ↦ (err (internal "poll timed out"), left)
    ]
  ]

  abbrev pub after_events : WatchConfig → Watch S A → S → List (ExternalEvent A) × Bool → Watch S A
  after_events c v s (sent, true) = record {
    source = s;
    consecutive_errors = 0;
    delivered = v.delivered ++ sent;
    slept = v.slept;
    stopped = true;
  }
  after_events c v s (sent, false) = record {
    source = s;
    consecutive_errors = 0;
    delivered = v.delivered ++ sent;
    slept = v.slept ++ c.interval ∷ [];
    stopped = false;
  }

  abbrev pub after_poll :
      WatchConfig
      → Watch S A
      → Turn S
      → Result ExternalError (List (ExternalEvent A)) × S
      → Watch S A
  after_poll c v t (ok events, s) = after_events c v s (send_all t.accepts events)
  after_poll c v t (err e, s) =
      let errors = saturating_succ v.consecutive_errors in
      record {
        source = s;
        consecutive_errors = errors;
        delivered = v.delivered;
        slept = v.slept ++ backoff_wait c.interval errors c.max_backoff ∷ [];
        stopped = false;
      }

  unfoldable pub turn : WatchConfig → Watch S A → Turn S → Watch S A
  unfolding backoff_wait
  turn c v t = if v.stopped then v else after_poll c v t (polled c v.source t)

  unfoldable pub watch_external_with_config : WatchConfig → Watch S A → List (Turn S) → Watch S A
  watch_external_with_config c v [] = v
  watch_external_with_config c v (t ∷ ts) = watch_external_with_config c (turn c v t) ts
