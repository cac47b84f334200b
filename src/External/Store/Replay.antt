-- ===== src/External/Store/Replay.antt =====
-- crates/koprs-external/src/store.rs: a client that replays the events of all polls.
use koprs.Prelude.{
  ◌≡◌, refl, sym, subst, ap, ◌∙◌, String, true, Option, none, some, List, [], ◌∷◌, ◌++◌, str_eq,
  eq_refl, opt_str_eq_iff, is_some, if◌then◌else◌, Bool-cases, inl, inr, Result, ok, err, arith,
}
use koprs.Prelude.Maps.{get, IsUnique}
use koprs.External.{ExternalEvent, added, modified, removed}
use koprs.External.Store.{StoredObject, ObjectStorePoller, new, poll}
use koprs.External.Store.Maps.{latest, etag_of}
use koprs.External.Store.Diff.{Events, events_of, events_at, path_of, expected, poll-expected}

-- What a client that applies the events to its own map then has under a path.
abbrev apply : ExternalEvent StoredObject → Option StoredObject
apply (added o) = some o
apply (modified o) = some o
apply (removed o) = none

unfoldable pub replay : String → Events → Option StoredObject → Option StoredObject
replay path [] before = before
replay path (e ∷ es) before = replay path es (if str_eq (path_of e) path then apply e else before)

replay-append :
    (path : String) (es fs : Events) (before : Option StoredObject)
    → replay path (es ++ fs) before ≡ replay path fs (replay path es before)
unfolding replay
replay-append path [] fs before = refl
replay-append path (e ∷ es) fs before = replay-append path es fs _

-- Only the events about a path matter to it.
replay-events_at :
    (path : String) (es : Events) (before : Option StoredObject)
    → replay path (events_at path es) before ≡ replay path es before
unfolding replay events_at
replay-events_at path [] before = refl
replay-events_at path (e ∷ es) before =
    ground (arith, replay-events_at path es before, replay-events_at path es (apply e))

-- Successive polls of a store that answers differently each time.
unfoldable pub poll_all :
    ObjectStorePoller → List (Result String (List StoredObject)) → Events × ObjectStorePoller
poll_all p [] = ([], p)
poll_all p (answer ∷ answers) =
    let (out, p') = poll p answer in
    let (events, p'') = poll_all p' answers in (events_of out ++ events, p'')

-- The last listing that succeeded.
unfoldable pub last_listing :
    List StoredObject → List (Result String (List StoredObject)) → List StoredObject
last_listing before [] = before
last_listing before (ok listing ∷ answers) = last_listing listing answers
last_listing before (err e ∷ answers) = last_listing before answers

-- The store gives the object of a path an `ETag` whenever it lists it.
abbrev pub IsTagged : String → List (Result String (List StoredObject)) → Type 0
IsTagged path [] = Unit {0}
IsTagged path (ok listing ∷ answers) =
    (is_some (latest path listing none) ≡ is_some (etag_of (latest path listing none)))
    × IsTagged path answers
IsTagged path (err e ∷ answers) = IsTagged path answers

-- The same version of an object, or no object on both sides.
abbrev pub SameVersion : Option StoredObject → Option StoredObject → Type 0
SameVersion v o = (is_some v ≡ is_some o) × (etag_of v ≡ etag_of o)

replay-expected :
    (path : String) (known : Option String) (now before : Option StoredObject)
    → is_some now ≡ is_some (etag_of now)
    → ((o : StoredObject) → now ≡ some o → str_eq o.path path ≡ true)
    → (is_some before ≡ is_some known) × (etag_of before ≡ known)
    → SameVersion (replay path (expected path known now) before) now
unfolding replay
replay-expected path none none none tagged key h = (refl, refl)
replay-expected path none none (some b) tagged key h = ground arith
replay-expected path none (some o) before tagged key h = rw (key o refl) (refl, refl)
replay-expected path (some etag) none before tagged key h = rw (eq_refl path) (refl, refl)
replay-expected path (some etag) (some o) none tagged key h = ground arith
replay-expected path (some etag) (some o) (some b) tagged key h =
    ground (arith, key o refl, opt_str_eq_iff o.etag (some etag))

path-latest :
    (path : String) (os : List StoredObject) (before : Option StoredObject)
    → ((o : StoredObject) → before ≡ some o → str_eq o.path path ≡ true)
    → (o : StoredObject) → latest path os before ≡ some o
    → str_eq o.path path ≡ true
unfolding latest
path-latest path [] before key o h = key o h
path-latest path (x ∷ os) before key o h = elim (Bool-cases (str_eq x.path path)) [
  | inl same ↦ path-latest path os (some x) (λ o' e. ground arith) o (ground arith)
  | inr other ↦ path-latest path os before key o (ground arith)
]

-- The client is where the poller is: both have the last listing's object.
abbrev InStep : String → Option StoredObject → ObjectStorePoller → List StoredObject → Type 0
InStep path before p listing =
    SameVersion before (latest path listing none)
    × (is_some (latest path listing none) ≡ is_some (etag_of (latest path listing none)))
    × (get path p.known ≡ etag_of (latest path listing none))
    × IsUnique p.known

poll-InStep :
    (path : String) (before : Option StoredObject) (p : ObjectStorePoller)
    (listing listed : List StoredObject)
    → is_some (latest path listed none) ≡ is_some (etag_of (latest path listed none))
    → InStep path before p listing
    → let (out, p') = poll p (ok listed) in
      InStep path (replay path (events_of out) before) p' listed
poll-InStep path before p listing listed tagged ((there, version), was_tagged, known, unique) =
    let (at, known', unique') = poll-expected p listed path unique in
    let now = latest path listed none in
    let out = events_of (poll p (ok listed)).0 in
    let told : replay path out before ≡ replay path (expected path (get path p.known) now) before =
      sym (replay-events_at path out before) ∙ ap (λ es. replay path es before) at in
    (
      subst (λ v. SameVersion v now) (sym told)
          (replay-expected path (get path p.known) now before tagged
            (path-latest path listed none (λ o e. cc))
            (there ∙ was_tagged ∙ ap is_some (sym known), version ∙ sym known)),
      tagged,
      known',
      unique',
    )

poll_all-InStep :
    (path : String) (before : Option StoredObject) (p : ObjectStorePoller)
    (listing : List StoredObject) (answers : List (Result String (List StoredObject)))
    → IsTagged path answers
    → InStep path before p listing
    → let (events, p') = poll_all p answers in
      InStep path (replay path events before) p' (last_listing listing answers)
unfolding poll_all last_listing replay poll
poll_all-InStep path before p listing [] tagged h = h
poll_all-InStep path before p listing (err e ∷ answers) tagged h =
    poll_all-InStep path before p listing answers tagged h
poll_all-InStep path before p listing (ok listed ∷ answers) (tag, tagged) h =
    let (out, p') = poll p (ok listed) in
    let (events, p'') = poll_all p' answers in
    subst (λ v. InStep path v p'' (last_listing listed answers))
      (sym (replay-append path (events_of out) events before))
      (poll_all-InStep path (replay path (events_of out) before) p' listed answers tagged
        (poll-InStep path before p listing listed tag h))

-- Refinement of what an object store watch promises. A client applies the events of any sequence of
-- polls of a new poller, failed polls included, to its own map. Then it has, under every path whose
-- object the store tags whenever it lists it, the version that the last successful listing has, and
-- no object exactly where that listing has none.
pub replay-poll_all :
    (store_name path : String) (answers : List (Result String (List StoredObject)))
    → IsTagged path answers
    → SameVersion
        (replay path (poll_all (new store_name) answers).0 none)
        (latest path (last_listing [] answers) none)
unfolding new latest get
replay-poll_all store_name path answers tagged =
    (poll_all-InStep path none (new store_name) [] answers tagged ((refl, refl), refl, refl, tt)).0
