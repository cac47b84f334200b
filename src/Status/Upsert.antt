-- ===== src/Status/Upsert.antt =====
-- crates/koprs/src/status.rs: `upsert_condition` against lookups by type.
use koprs.Prelude.{
  ◌≡◌, refl, String, Option, none, some, List, [], ◌∷◌, arith, eq_iff, str_eq, if◌then◌else◌,
  Bool-cases, Option-cases, sym, subst, ap, ◌∙◌, inl, inr,
}
use koprs.Status.{KoprsCondition, merge, upsert_condition}

-- The first condition of a type.
unfoldable pub find : String → List KoprsCondition → Option KoprsCondition
find t [] = none
find t (c ∷ cs) = if str_eq c.type_ t then some c else find t cs

-- What an update leaves under its own type.
abbrev pub merged : Option KoprsCondition → KoprsCondition → KoprsCondition
merged none new = new
merged (some old) new = record {
  type_ = new.type_;
  status = new.status;
  reason = new.reason;
  message = new.message;
  observed_generation = new.observed_generation;
  last_transition_time =
      if str_eq new.status old.status then old.last_transition_time else new.last_transition_time;
}

str_eq_comm : (s t : String) → str_eq s t ≡ str_eq t s
str_eq_comm s t = ground (arith, eq_iff s t, eq_iff t s)

merge-merged : (old new : KoprsCondition) → merge old new ≡ merged (some old) new
unfolding merge
merge-merged old new = rw (str_eq_comm old.status new.status) refl

-- After an update, a lookup of its type finds the new condition, with the old transition time if
-- there was a condition of the type with the same status and its own otherwise; a lookup of any
-- other type finds what it found before.
pub find-upsert_condition :
    (t : String) (cs : List KoprsCondition) (new : KoprsCondition)
    → find t (upsert_condition cs new)
      ≡ (if str_eq new.type_ t then some (merged (find new.type_ cs) new) else find t cs)
unfolding find upsert_condition
find-upsert_condition t [] new = refl
find-upsert_condition t (c ∷ cs) new = ground (
  arith,
  find-upsert_condition t cs new,
  eq_iff c.type_ new.type_,
  eq_iff c.type_ t,
  eq_iff new.type_ t,
  merge-merged c new,
)

-- No two conditions have one type.
abbrev pub IsUnique : List KoprsCondition → Type 0
IsUnique [] = Unit {0}
IsUnique (c ∷ cs) = (find c.type_ cs ≡ none) × IsUnique cs

-- An update keeps the types of the conditions distinct.
pub upsert_condition-IsUnique :
    (cs : List KoprsCondition) (new : KoprsCondition)
    → IsUnique cs
    → IsUnique (upsert_condition cs new)
unfolding upsert_condition find
upsert_condition-IsUnique [] new h = (refl, tt)
upsert_condition-IsUnique (c ∷ cs) new h = ground (
  arith,
  upsert_condition-IsUnique cs new h.1,
  find-upsert_condition c.type_ cs new,
  eq_iff c.type_ new.type_,
  eq_iff new.type_ c.type_,
)

-- A sequence of updates.
pub upsert_all : List KoprsCondition → List KoprsCondition → List KoprsCondition
upsert_all cs [] = cs
upsert_all cs (new ∷ news) = upsert_all (upsert_condition cs new) news

-- All updates of the type `t` have the status `status`.
abbrev pub Keeps : String → String → List KoprsCondition → Type 0
Keeps t status [] = Unit {0}
Keeps t status (new ∷ news) = (new.type_ ≡ t → new.status ≡ status) × Keeps t status news

abbrev pub transition_of : Option KoprsCondition → Option (String × String)
transition_of none = none
transition_of (some c) = some (c.status, c.last_transition_time)

kept_transition :
    (t : String) (cs : List KoprsCondition) (new old : KoprsCondition)
    → find t cs ≡ some old
    → (new.type_ ≡ t → new.status ≡ old.status)
    → transition_of (find t (upsert_condition cs new)) ≡ some (old.status, old.last_transition_time)
kept_transition t cs new old e keep =
    rw (find-upsert_condition t cs new) (elim (Bool-cases (str_eq new.type_ t)) [
      | inl same ↦
          let ty = (eq_iff new.type_ t).0 same in
          rw (same, subst (λ x. find x cs ≡ some old) (sym ty) e)
            (ground (arith, eq_iff new.status old.status, keep ty))
      | inr other ↦ rw (other, e)
    ])

-- However often a condition is updated with the status it has, and whatever happens to the other
-- types, it keeps its status and the time of its last transition.
pub transition_kept :
    (t : String) (cs news : List KoprsCondition) (old : KoprsCondition)
    → find t cs ≡ some old
    → Keeps t old.status news
    → transition_of (find t (upsert_all cs news)) ≡ some (old.status, old.last_transition_time)
unfolding upsert_all
transition_kept t cs [] old e keep = rw e
transition_kept t cs (new ∷ news) old e keep =
    elim (Option-cases (find t (upsert_condition cs new))) [
      | inl gone ↦ absurd (ground (arith, kept_transition t cs new old e keep.0))
      | inr (mid, found) ↦
          let same : (mid.status ≡ old.status)
              × (mid.last_transition_time ≡ old.last_transition_time) =
            ground (arith, kept_transition t cs new old e keep.0) in
          transition_kept t (upsert_condition cs new) news mid found
            (subst (λ s. Keeps t s news) (sym same.0) keep.1)
          ∙ ap some (ground (arith, same))
    ]
