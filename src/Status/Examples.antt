-- ===== src/Status/Examples.antt =====
-- crates/koprs/src/status.rs: concrete conditions.
use koprs.Prelude.{
  ◌≡◌, refl, Bool, true, false, Option, Result, ok, String, none, some, List, [], ◌∷◌, str_eq,
  if◌then◌else◌,
}
use koprs.Status.{KoprsCondition, make_condition, upsert_condition}
use koprs.Status.Conversions.{
  Condition, truncate_to_secs, from_condition, into_condition, into_condition-from_condition,
}
use koprs.Status.Upsert.{find, merged, find-upsert_condition}

abbrev condition : String → String → String → KoprsCondition
condition type_ status now = record {
  type_ = type_;
  status = status;
  reason = "Test";
  message = "";
  last_transition_time = now;
  observed_generation = none;
}

made : make_condition "Ready" "True" "Test" "" none "t1" ≡ condition "Ready" "True" "t1"
unfolding make_condition
made = refl

abbrev old : List KoprsCondition
old = condition "Synced" "False" "t0" ∷ condition "Ready" "True" "t1" ∷ []

kept_time : upsert_condition old (condition "Ready" "True" "t2") ≡ old
unfolding upsert_condition
kept_time = refl

moved_time :
    upsert_condition old (condition "Ready" "False" "t2")
    ≡ condition "Synced" "False" "t0" ∷ condition "Ready" "False" "t2" ∷ []
unfolding upsert_condition
moved_time = refl

find-upsert_condition_example :
    find "Ready" (upsert_condition old (condition "Ready" "False" "t2")) ≡ (
      if str_eq "Ready" "Ready"
      then some (merged (find "Ready" old) (condition "Ready" "False" "t2"))
      else find "Ready" old)
find-upsert_condition_example = find-upsert_condition "Ready" old (condition "Ready" "False" "t2")

found : find "Ready" old ≡ some (condition "Ready" "True" "t1")
unfolding find
found = refl

-- A clock that knows one second and its half.
abbrev whole : Bool → Option Bool
whole half = some false

abbrev clock_text : Bool → String
clock_text true = "2024-01-01T00:00:00.5Z"
clock_text false = "2024-01-01T00:00:00Z"

abbrev read_clock : String → Result String Bool
read_clock s = if str_eq s "2024-01-01T00:00:00.5Z" then ok true else ok false

read_text : (t : Bool) → read_clock (clock_text t) ≡ ok t
read_text true = refl
read_text false = refl

truncated_twice :
    (t : Bool)
    → truncate_to_secs whole clock_text read_clock (truncate_to_secs whole clock_text read_clock t)
      ≡ truncate_to_secs whole clock_text read_clock t
unfolding truncate_to_secs
truncated_twice t = refl

abbrev at_half : Condition Bool
at_half = record {
  type_ = "Ready";
  status = "True";
  reason = "Test";
  message = "";
  last_transition_time = true;
  observed_generation = none;
}

into_condition-from_condition_example :
    (into_condition whole clock_text read_clock true
        (from_condition whole clock_text read_clock at_half)
      ≡ record at_half { last_transition_time = truncate_to_secs whole clock_text read_clock true })
    × (from_condition whole clock_text read_clock (
          into_condition whole clock_text read_clock true
            (from_condition whole clock_text read_clock at_half))
        ≡ from_condition whole clock_text read_clock at_half)
into_condition-from_condition_example =
    into_condition-from_condition whole clock_text read_clock read_text truncated_twice true at_half
