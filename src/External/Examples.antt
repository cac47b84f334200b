-- ===== src/External/Examples.antt =====
-- crates/koprs-external/src: concrete polls.
use koprs.Prelude.{
  Option, ℕ, ◌+◌, ◌≡◌, refl, String, false, map, none, some, List, [], ◌∷◌, Result, ok, err,
}
use koprs.External.{ExternalError, internal, ExternalEvent, added, modified, removed}
use koprs.External.Watcher.{WatchConfig, Turn, Watch, turn, watch_external_with_config}
use koprs.External.Http.{Request, Response, read_body, new}
use koprs.External.Protocol.{run_seen, poll_all, poll_all-seen}
use koprs.External.Store
use koprs.External.Store.{StoredObject, ObjectStorePoller}
use koprs.External.Store.Maps.{latest, etag_of}
use koprs.Prelude.Maps.{get, IsUnique}
use koprs.External.Store.Watched.{next_poll, undisturbed, beginning, watch-replay}
use koprs.External.Store.Replay
use koprs.External.Store.Replay.{replay, IsTagged, SameVersion, last_listing}
use koprs.External.Store.Diff
use koprs.External.Store.Diff.{events_at, expected, poll-expected}

abbrev failing : ℕ → Result ExternalError (List (ExternalEvent ℕ)) × ℕ
failing s = (err (internal "down"), s + 1)

abbrev settings : WatchConfig
settings = record { interval = 5; max_backoff = 30; poll_timeout = none }

abbrev watch : Watch ℕ ℕ
watch = record { source = 0; consecutive_errors = 0; delivered = []; slept = []; stopped = false }

abbrev turns : List (Turn ℕ)
turns =
    record { timed_out = none; accepts = none } ∷ record { timed_out = none; accepts = none } ∷ []

failed_twice : (watch_external_with_config failing settings watch turns).slept ≡ 10 ∷ 20 ∷ []
unfolding watch_external_with_config turn
failed_twice = refl

abbrev parse : String → Result String String
parse s = ok s

abbrev response : ℕ → Response
response status = record {
  status = status;
  etag = some "v1";
  last_modified = none;
  content_type = none;
  content_length = none;
  chunks = ok (1 ∷ 2 ∷ []) ∷ ok (3 ∷ []) ∷ [];
}

abbrev answering : ℕ → Request → Result String Response
answering status request = ok (response status)

abbrev answers : List (Request → Result String Response)
answers =
    answering 200
    ∷ answering 304
    ∷ (λ request. err "reset")
    ∷ answering 200
    ∷ answering 404
    ∷ answering 404
    ∷ []

poll_all-seen_example :
    let (events, p) = poll_all parse parse (new "http://x") answers in
    run_seen (new "http://x").seen events ≡ some p.seen
poll_all-seen_example = poll_all-seen parse parse (new "http://x") answers

reads : read_body (response 200) (some 3) ≡ ok (1 ∷ 2 ∷ 3 ∷ [])
unfolding read_body
reads = refl

abbrev object : String → Option String → StoredObject
object path etag = record { path = path; etag = etag; size = 1 }

abbrev listing : List StoredObject
listing = object "a" (some "2") ∷ object "b" none ∷ []

abbrev remembered : ObjectStorePoller
remembered = record { prefix = none; name = "memory"; known = ("a", "1") ∷ ("c", "9") ∷ [] }

polled_objects : Store.poll remembered (ok listing) ≡ (
  ok (
      modified (object "a" (some "2"))
      ∷ added (object "b" none)
      ∷ removed (record { path = "c"; etag = none; size = 0 })
      ∷ []),
  record { prefix = none; name = "memory"; known = ("a", "2") ∷ [] },
)
unfolding Store.poll
polled_objects = refl

remembered-IsUnique : IsUnique remembered.known
unfolding get
remembered-IsUnique = (refl, (refl, tt))

poll-expected_example :
    let (out, p') = Store.poll remembered (ok listing) in
    let now = latest "a" listing none in
    (events_at "a" (Diff.events_of out) ≡ expected "a" (get "a" remembered.known) now)
    × (get "a" p'.known ≡ etag_of now)
    × IsUnique p'.known
poll-expected_example = poll-expected remembered listing "a" remembered-IsUnique

-- Listed, changed after a failure, and gone.
abbrev listings : List (Result String (List StoredObject))
listings =
    ok (object "a" (some "1") ∷ object "b" (some "7") ∷ [])
    ∷ err "down"
    ∷ ok (object "b" (some "7") ∷ object "a" (some "2") ∷ [])
    ∷ ok (object "a" (some "2") ∷ [])
    ∷ []

listings-IsTagged : IsTagged "b" listings
unfolding latest
listings-IsTagged = (refl, (refl, (refl, tt)))

replayed :
    replay "a" (Replay.poll_all (Store.new "memory") listings).0 none ≡ some (object "a" (some "2"))
unfolding replay Replay.poll_all Store.new Store.poll
replayed = refl

watch-replay_example :
    let v =
      watch_external_with_config next_poll settings
        (beginning (Store.new "memory") listings)
        (map (λ a. undisturbed) listings) in
    SameVersion (replay "b" v.delivered none) (latest "b" (last_listing [] listings) none)
    × (v.stopped ≡ false)
watch-replay_example = watch-replay settings "memory" "b" listings listings-IsTagged
