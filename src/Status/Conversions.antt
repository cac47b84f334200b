-- ===== src/Status/Conversions.antt =====
-- crates/koprs/src/status.rs: the conversions between `KoprsCondition` and the `Condition` of
-- Kubernetes. Timestamps are those of jiff: their rounding, text and parser are parameters.
use koprs.Prelude.{◌≡◌, ap, ◌∙◌, String, Option, none, some, ℤ, Result, ok, err}
use koprs.Status.{KoprsCondition}

pub record Condition (Time : Type 0) : Type 0 where
  pub type_ : String
  pub status : String
  pub reason : String
  pub message : String
  pub last_transition_time : Time
  pub observed_generation : Option ℤ

abbrev pub unwrap_or_now : {Time : Type 0} → Result String Time → Time → Time
unwrap_or_now (ok t) now = t
unwrap_or_now (err e) now = now

-- `round` to whole seconds, which fails with `none`, `to_string` and `parse`.
module _ {Time : Type 0} (round : Time → Option Time) (print : Time → String)
    (parse : String → Result String Time) where
  unfoldable pub truncate_to_secs : Time → Time
  truncate_to_secs t = elim (round t) [ none ↦ t | some s ↦ s ]

  unfoldable pub from_condition : Condition Time → KoprsCondition
  unfolding truncate_to_secs
  from_condition c = record {
    type_ = c.type_;
    status = c.status;
    reason = c.reason;
    message = c.message;
    last_transition_time = print (truncate_to_secs c.last_transition_time);
    observed_generation = c.observed_generation;
  }

  unfoldable pub into_condition : Time → KoprsCondition → Condition Time
  into_condition now k = record {
    type_ = k.type_;
    status = k.status;
    reason = k.reason;
    message = k.message;
    last_transition_time = unwrap_or_now (parse k.last_transition_time) now;
    observed_generation = k.observed_generation;
  }

  -- If the parser reads what the printer writes and a timestamp that is rounded is not rounded
  -- further, then a `Condition` comes back from a `KoprsCondition` with its time truncated, whatever
  -- the clock says, and a second trip changes nothing.
  pub into_condition-from_condition :
      ((t : Time) → parse (print t) ≡ ok t)
      → ((t : Time) → truncate_to_secs (truncate_to_secs t) ≡ truncate_to_secs t)
      → (now : Time) (c : Condition Time)
      → (into_condition now (from_condition c)
          ≡ record c { last_transition_time = truncate_to_secs c.last_transition_time })
        × (from_condition (into_condition now (from_condition c)) ≡ from_condition c)
  unfolding from_condition into_condition
  into_condition-from_condition read twice now c =
      let first =
        ap (λ r. record c { last_transition_time = unwrap_or_now r now })
          (read (truncate_to_secs c.last_transition_time)) in
      (
        first,
        ap from_condition first
            ∙ ap (λ t. record (from_condition c) { last_transition_time = print t })
                (twice c.last_transition_time),
      )
