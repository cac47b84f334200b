-- ===== src/External/Store.antt =====
-- crates/koprs-external/src/store.rs: the object store poller. The listing that a poll is given is
-- the answer of the store to `list(prefix)`; `Path` is the store's. A `HashMap` is an association list without a repeated key; the order in which the source
-- walks it is not specified, so the order of the events of one poll means nothing.
pub mod Maps
pub mod Diff
pub mod Replay
pub mod Watched
use koprs.Prelude.{
  ℕ, String, Option, none, some, List, [], ◌∷◌, ◌++◌, str_eq, opt_str_eq, is_some, if◌then◌else◌,
  Result, ok, err, ◌==◌,
}
use Prim.Native.String
use koprs.Prelude.Strings.{trim_end}
use koprs.Prelude.Maps.{get, insert}
use koprs.External.{ExternalError, internal, ExternalEvent, added, modified, removed}

pub record StoredObject : Type 0 where
  pub path : String
  pub etag : Option String
  pub size : ℕ

pub record ObjectStorePoller : Type 0 where
  pub prefix : Option String
  pub name : String
  pub known : List (String × String)

-- The display name of a store is a parameter.
unfoldable pub new : String → ObjectStorePoller
new store_name = record { prefix = none; name = store_name; known = [] }

-- `trim_end_matches('/')`; the conversion `Path::from` is a parameter.
unfoldable pub with_prefix : (String → String) → ObjectStorePoller → String → ObjectStorePoller
with_prefix path_from p prefix = record p {
  prefix = some (path_from prefix);
  name = String.◌++◌ (String.◌++◌ (trim_end (λ c. c == b'/') p.name) "/") prefix;
}

unfoldable pub with_name : ObjectStorePoller → String → ObjectStorePoller
with_name p name = record p { name = name }

-- The map of the listing: a later object of a path replaces an earlier one.
unfoldable pub collect :
    List StoredObject → List (String × StoredObject) → List (String × StoredObject)
unfolding insert
collect [] current = current
collect (o ∷ os) current = collect os (insert o.path o current)

-- The event of a listed object.
unfoldable pub listed_event : Option String → StoredObject → List (ExternalEvent StoredObject)
listed_event none o = added o ∷ []
listed_event (some etag) o = if opt_str_eq o.etag (some etag) then [] else modified o ∷ []

unfoldable pub listed_events :
    List (String × String) → List (String × StoredObject) → List (ExternalEvent StoredObject)
unfolding get listed_event
listed_events known [] = []
listed_events known ((path, o) ∷ current) =
    listed_event (get path known) o ++ listed_events known current

abbrev pub forgotten : String → StoredObject
forgotten path = record { path = path; etag = none; size = 0 }

unfoldable pub removed_events :
    List (String × StoredObject) → List (String × String) → List (ExternalEvent StoredObject)
unfolding get
removed_events current [] = []
removed_events current ((path, etag) ∷ known) =
    if is_some (get path current)
    then removed_events current known
    else removed (forgotten path) ∷ removed_events current known

-- Only objects with an `ETag` are remembered.
unfoldable pub remember : List (String × StoredObject) → List (String × String)
remember [] = []
remember ((path, o) ∷ current) = elim o.etag [
  | none ↦ remember current
  | some etag ↦ (path, etag) ∷ remember current
]

unfoldable pub poll :
    ObjectStorePoller
    → Result String (List StoredObject)
    → Result ExternalError (List (ExternalEvent StoredObject)) × ObjectStorePoller
unfolding collect listed_events removed_events remember
poll p (err e) = (err (internal (String.◌++◌ "object store list failed: " e)), p)
poll p (ok listing) =
    let current = collect listing [] in
    (
      ok (listed_events p.known current ++ removed_events current p.known),
      record p { known = remember current },
    )
