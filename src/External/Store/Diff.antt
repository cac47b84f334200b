-- ===== src/External/Store/Diff.antt =====
-- crates/koprs-external/src/store.rs: the events of a poll, path by path.
use mathlib.Core.List.{append-nil}
use koprs.Prelude.{
  ◌≡◌, refl, subst, ap, ◌∙◌, String, Bool, true, false, Option, none, some, List, [], ◌∷◌, ◌++◌,
  str_eq, eq_iff, opt_str_eq, is_some, if◌then◌else◌, Bool-cases, inl, inr, Result, ok, err,
}
use koprs.Prelude.Maps.{get, IsUnique}
use koprs.External.{ExternalError, ExternalEvent, added, modified, removed}
use koprs.External.Store.{
  StoredObject, ObjectStorePoller, collect, listed_event, listed_events, removed_events, forgotten,
  poll,
}
use koprs.External.Store.Maps.{
  IsKeyed, latest, get-collect, collect-IsUnique, collect-IsKeyed, etag_of, get-remember,
  remember-IsUnique,
}

abbrev pub Events : Type 0
Events = List (ExternalEvent StoredObject)

abbrev pub path_of : ExternalEvent StoredObject → String
path_of (added o) = o.path
path_of (modified o) = o.path
path_of (removed o) = o.path

-- The events about a path.
unfoldable pub events_at : String → Events → Events
events_at path [] = []
events_at path (e ∷ es) =
    if str_eq (path_of e) path then e ∷ events_at path es else events_at path es

pub events_at-append :
    (path : String) (es fs : Events)
    → events_at path (es ++ fs) ≡ events_at path es ++ events_at path fs
unfolding events_at
events_at-append path [] fs = refl
events_at-append path (e ∷ es) fs = elim (Bool-cases (str_eq (path_of e) path)) [
  | inl same ↦ rw same (ap (◌∷◌ e) (events_at-append path es fs))
  | inr other ↦ rw other (events_at-append path es fs)
]

events_at-listed_event :
    (path : String) (known : Option String) (o : StoredObject)
    → events_at path (listed_event known o)
      ≡ (if str_eq o.path path then listed_event known o else [])
unfolding events_at listed_event
events_at-listed_event path none o = refl
events_at-listed_event path (some etag) o = elim (Bool-cases (opt_str_eq o.etag (some etag))) [
  | inl same ↦ rw same (nothing (str_eq o.path path))
  | inr other ↦ rw other
]
  where
    nothing : (b : Bool) → ◌≡◌ {A = Events} [] (if b then [] else [])
    nothing true = refl
    nothing false = refl

-- What a listing says of the object that is there, or not.
abbrev listed_at : Option String → Option StoredObject → Events
listed_at known none = []
listed_at known (some o) = listed_event known o

listed_one :
    (p j path : String) (known : List (String × String)) (o : StoredObject)
    (rest : Option StoredObject)
    → p ≡ j
    → (j ≡ path → rest ≡ none)
    → (if str_eq p path then listed_event (get j known) o else [])
        ++ listed_at (get path known) rest
      ≡ listed_at (get path known) (if str_eq j path then some o else rest)
listed_one p j path known o rest key away = elim (Bool-cases (str_eq j path)) [
  | inl same ↦
      let e = (eq_iff j path).0 same in
      rw (key, same, away e) (append-nil _ ∙ ap (λ x. listed_event (get x known) o) e)
  | inr other ↦ rw (key, other)
]

events_at-listed_events :
    (path : String) (known : List (String × String)) (m : List (String × StoredObject))
    → IsUnique m
    → IsKeyed m
    → events_at path (listed_events known m) ≡ listed_at (get path known) (get path m)
unfolding get listed_events events_at
events_at-listed_events path known [] u k = refl
events_at-listed_events path known ((j, o) ∷ m) (fresh, u) (key, k) =
    events_at-append path (listed_event (get j known) o) (listed_events known m)
    ∙ ap (λ es. es ++ events_at path (listed_events known m))
        (events_at-listed_event path (get j known) o)
    ∙ ap (λ es. (if str_eq o.path path then listed_event (get j known) o else []) ++ es)
        (events_at-listed_events path known m u k)
    ∙ listed_one o.path j path known o (get path m) key (λ e. subst (λ x. get x m ≡ none) e fresh)

-- What is reported of a known object that a listing does not have.
abbrev gone_at : String → Option String → Option StoredObject → Events
gone_at path none now = []
gone_at path (some etag) now = if is_some now then [] else removed (forgotten path) ∷ []

gone_one :
    (path j etag : String) (now before : Option StoredObject) (rest : Events) (old : Option String)
    → (j ≡ path → before ≡ now)
    → (j ≡ path → old ≡ none)
    → events_at path rest ≡ gone_at path old now
    → events_at path (if is_some before then rest else removed (forgotten j) ∷ rest)
      ≡ gone_at path (if str_eq j path then some etag else old) now
unfolding events_at
gone_one path j etag now (some b) rest old same_now away ih = elim (Bool-cases (str_eq j path)) [
  | inl same ↦
      let e = (eq_iff j path).0 same in
      rw same
        (ih ∙ ap (λ o. gone_at path o now) (away e) ∙ ap (gone_at path (some etag)) (same_now e))
  | inr other ↦ rw other ih
]
gone_one path j etag now none rest old same_now away ih = elim (Bool-cases (str_eq j path)) [
  | inl same ↦
      let e = (eq_iff j path).0 same in
      rw same (
        ap (λ es. removed (forgotten j) ∷ es) (ih ∙ ap (λ o. gone_at path o now) (away e))
        ∙ ap (λ x. removed (forgotten x) ∷ []) e
        ∙ ap (gone_at path (some etag)) (same_now e))
  | inr other ↦ rw other ih
]

events_at-removed_events :
    (path : String) (m : List (String × StoredObject)) (known : List (String × String))
    → IsUnique known
    → events_at path (removed_events m known) ≡ gone_at path (get path known) (get path m)
unfolding get removed_events events_at
events_at-removed_events path m [] u = refl
events_at-removed_events path m ((j, etag) ∷ known) (fresh, u) =
    gone_one path j etag (get path m) (get j m) (removed_events m known) (get path known)
      (λ e. ap (λ x. get x m) e) (λ e. subst (λ x. get x known ≡ none) e fresh)
      (events_at-removed_events path m known u)

-- What a poll is to report of a path: from the `ETag` that was remembered and the object that is
-- listed now.
abbrev pub expected : String → Option String → Option StoredObject → Events
expected path none none = []
expected path none (some o) = added o ∷ []
expected path (some etag) none = removed (forgotten path) ∷ []
expected path (some etag) (some o) = if opt_str_eq o.etag (some etag) then [] else modified o ∷ []

expected_lem :
    (path : String) (known : Option String) (now : Option StoredObject)
    → listed_at known now ++ gone_at path known now ≡ expected path known now
unfolding listed_event
expected_lem path none none = refl
expected_lem path none (some o) = refl
expected_lem path (some etag) none = refl
expected_lem path (some etag) (some o) = append-nil _

abbrev pub events_of : Result ExternalError Events → Events
events_of (ok es) = es
events_of (err e) = []

-- After any poll whose listing succeeds, from a state that remembers no path twice, for each path:
-- the events about it are what the remembered `ETag` and the last listed object of the path make of
-- it (added, modified, removed or nothing), the poller remembers that object's `ETag`, and no path is
-- remembered twice. An object that was remembered and is now listed without an `ETag` is reported as
-- modified, where the documentation of the poller says added.
pub poll-expected :
    (p : ObjectStorePoller) (listing : List StoredObject) (path : String)
    → IsUnique p.known
    → let (out, p') = poll p (ok listing) in
      let now = latest path listing none in
      (events_at path (events_of out) ≡ expected path (get path p.known) now)
      × (get path p'.known ≡ etag_of now)
      × IsUnique p'.known
unfolding poll get
poll-expected p listing path u =
    let m = collect listing [] in
    let unique = collect-IsUnique listing [] tt in
    let now = get-collect path listing [] in
    (
      events_at-append path (listed_events p.known m) (removed_events m p.known)
          ∙ ap (λ es. es ++ events_at path (removed_events m p.known))
              (events_at-listed_events path p.known m unique (collect-IsKeyed listing [] tt))
          ∙ ap (λ es. listed_at (get path p.known) (get path m) ++ es)
              (events_at-removed_events path m p.known u)
          ∙ expected_lem path (get path p.known) (get path m)
          ∙ ap (expected path (get path p.known)) now,
      get-remember path m unique ∙ ap etag_of now,
      remember-IsUnique m unique,
    )
