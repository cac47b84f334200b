-- ===== src/Status.antt =====
-- crates/koprs/src/status.rs: conditions and `upsert_condition`. The timestamp of
-- `make_condition` is an argument, the formatted current time.
pub mod Upsert
pub mod Patches
pub mod Conversions
pub mod Examples
use koprs.Prelude.{String, Option, none, some, List, [], ◌∷◌, ℤ, str_eq, if◌then◌else◌}

pub record KoprsCondition : Type 0 where
  pub type_ : String
  pub status : String
  pub reason : String
  pub message : String
  pub last_transition_time : String
  pub observed_generation : Option ℤ

unfoldable pub make_condition :
    String → String → String → String → Option ℤ → String → KoprsCondition
make_condition type_ status reason message observed_generation now = record {
  type_ = type_;
  status = status;
  reason = reason;
  message = message;
  observed_generation = observed_generation;
  last_transition_time = now;
}

-- What is written over the existing condition.
unfoldable pub merge : KoprsCondition → KoprsCondition → KoprsCondition
merge existing new = record new {
  last_transition_time =
      if str_eq existing.status new.status
      then existing.last_transition_time
      else new.last_transition_time;
}

-- `iter_mut().find(..)` takes the first condition of the type.
unfoldable pub upsert_condition : List KoprsCondition → KoprsCondition → List KoprsCondition
unfolding merge
upsert_condition [] new = new ∷ []
upsert_condition (c ∷ cs) new =
    if str_eq c.type_ new.type_ then merge c new ∷ cs else c ∷ upsert_condition cs new
