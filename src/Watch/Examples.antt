-- ===== src/Watch/Examples.antt =====
-- crates/koprs/src/watcher.rs: a watch whose receivers take two messages.
use koprs.Prelude.{◌≡◌, refl, map, String, true, some, List, [], ◌∷◌, Result, ok, err}
use koprs.Kube.{Target}
use koprs.Scope.{in_namespace, into_api}
use koprs.Watch.{
  RuntimeEvent, apply, delete, init_apply, init, init_done, applied, deleted, watch, watch_objects,
  watch_events,
}
use koprs.Watch.Forwarded.{before_error, without_error, all_told, take, unit_of, watches_forward}

-- The settings are the selectors that were set.
abbrev labelled : List String → String → List String
labelled c s = s ∷ c

abbrev objects : Target → List String → List (Result String String)
objects api config = ok "a" ∷ ok "b" ∷ err "gone" ∷ ok "c" ∷ []

abbrev events : Target → List String → List (Result String (RuntimeEvent String))
events api config =
    ok init ∷ ok (init_apply "a") ∷ ok init_done ∷ ok (delete "a") ∷ ok (apply "b") ∷ []

watches_forward_example :
    (watch [] labelled objects (in_namespace "apps") (some "app=web") (some 2) ≡ (
      take
          (some 2)
          (map unit_of (before_error (objects (into_api (in_namespace "apps")) ("app=web" ∷ [])))),
      without_error (objects (into_api (in_namespace "apps")) ("app=web" ∷ [])),
    ))
    × (watch_objects [] labelled objects (in_namespace "apps") (some "app=web") (some 2) ≡ (
      take (some 2) (before_error (objects (into_api (in_namespace "apps")) ("app=web" ∷ []))),
      without_error (objects (into_api (in_namespace "apps")) ("app=web" ∷ [])),
    ))
    × (watch_events [] labelled events (in_namespace "apps") (some "app=web") (some 2) ≡ (
      take
          (some 2)
          (all_told (before_error (events (into_api (in_namespace "apps")) ("app=web" ∷ [])))),
      without_error (events (into_api (in_namespace "apps")) ("app=web" ∷ [])),
    ))
watches_forward_example =
    watches_forward [] labelled objects events (in_namespace "apps") (some "app=web") (some 2)

-- The receivers are gone after two events, and the task runs on.
events_run :
    watch_events [] labelled events (in_namespace "apps") (some "app=web") (some 2)
    ≡ (applied "a" ∷ deleted "a" ∷ [], true)
unfolding watch_events
events_run = refl
