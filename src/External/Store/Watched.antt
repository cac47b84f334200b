-- ===== src/External/Store/Watched.antt =====
-- crates/koprs-external/src: the poll loop over the object store poller, from the answers of the
-- store to what the receiver of the channel was sent.
use mathlib.Core.List.{append-nil, append_assoc}
use koprs.Prelude.{
  ◌≡◌, refl, sym, subst, ap, ◌∙◌, String, false, none, List, [], ◌∷◌, ◌++◌, map, Result, ok, err,
  if_false, arith,
}
use koprs.External.{ExternalError}
use koprs.External.Watcher.{
  WatchConfig, Turn, Watch, after_poll, polled, turn, watch_external_with_config,
}
use koprs.External.Store.{StoredObject, ObjectStorePoller, new, poll}
use koprs.External.Store.Maps.{latest}
use koprs.External.Store.Diff.{Events, events_of}
use koprs.External.Store.Replay.{
  replay, poll_all, last_listing, IsTagged, SameVersion, replay-poll_all,
}

-- What the store answers to the polls to come.
abbrev pub Answers : Type 0
Answers = List (Result String (List StoredObject))

abbrev pub next_poll :
    ObjectStorePoller × Answers → Result ExternalError Events × (ObjectStorePoller × Answers)
next_poll (p, []) = (ok [], (p, []))
next_poll (p, answer ∷ answers) = let (out, p') = poll p answer in (out, (p', answers))

-- A turn without a timeout whose receiver takes all.
abbrev pub undisturbed : Turn (ObjectStorePoller × Answers)
undisturbed = record { timed_out = none; accepts = none }

-- The loop before its first turn.
abbrev pub beginning :
    ObjectStorePoller → Answers → Watch (ObjectStorePoller × Answers) StoredObject
beginning p answers = record {
  source = (p, answers);
  consecutive_errors = 0;
  delivered = [];
  slept = [];
  stopped = false;
}

-- One turn delivers the events of its poll and goes on.
record After (v u : Watch (ObjectStorePoller × Answers) StoredObject)
    (out : Result ExternalError Events) (s : ObjectStorePoller × Answers) : Type 0 where
  sent : u.delivered ≡ v.delivered ++ events_of out
  left : u.source ≡ s
  goes_on : u.stopped ≡ false

module _ (c : WatchConfig) where
  after_poll-After :
      (v : Watch (ObjectStorePoller × Answers) StoredObject) (out : Result ExternalError Events)
      (s : ObjectStorePoller × Answers)
      → After v (after_poll next_poll c v undisturbed (out, s)) out s
  after_poll-After v (ok es) s = record { sent = refl; left = refl; goes_on = refl }
  after_poll-After v (err e) s = record { sent = sym (append-nil _); left = refl; goes_on = refl }

  polled_lem : (s : ObjectStorePoller × Answers) → polled next_poll c s undisturbed ≡ next_poll s
  polled_lem s = ground arith

  turn-After :
      (v : Watch (ObjectStorePoller × Answers) StoredObject)
      → v.stopped ≡ false
      → After v (turn next_poll c v undisturbed) (next_poll v.source).0 (next_poll v.source).1
  unfolding turn
  turn-After v h =
      subst (λ u. After v u (next_poll v.source).0 (next_poll v.source).1)
        (sym (
          if_false v.stopped _ _ h
          ∙ ap (after_poll next_poll c v undisturbed) (polled_lem v.source)))
        (after_poll-After v (next_poll v.source).0 (next_poll v.source).1)

  watch-delivered :
      (v : Watch (ObjectStorePoller × Answers) StoredObject) (p : ObjectStorePoller)
      (answers : Answers)
      → v.stopped ≡ false
      → v.source ≡ (p, answers)
      → let u = watch_external_with_config next_poll c v (map (λ a. undisturbed) answers) in
        (u.delivered ≡ v.delivered ++ (poll_all p answers).0) × (u.stopped ≡ false)
  unfolding watch_external_with_config poll_all
  watch-delivered v p [] h e = (sym (append-nil _), h)
  watch-delivered v p (answer ∷ answers) h e =
      let a = turn-After v h in
      let p' = (poll p answer).1 in
      let rest = (poll_all p' answers).0 in
      let (sent, goes_on) =
        watch-delivered (turn next_poll c v undisturbed) p' answers a.goes_on
          (a.left ∙ ap (λ s. (next_poll s).1) e) in
      (
        sent
            ∙ ap (λ d. d ++ rest) (a.sent ∙ ap (λ s. v.delivered ++ events_of (next_poll s).0) e)
            ∙ append_assoc v.delivered (events_of (poll p answer).0) rest,
        goes_on,
      )

  -- An object store watch, end to end: the poll loop over a new poller, whose store answers one
  -- poll after the other, some with an error, and whose receiver takes every event. The loop goes
  -- on, and a client that applies what the channel delivered has, under every path whose object the
  -- store tags whenever it lists it, the version of the last successful listing, and no object
  -- exactly where that listing has none.
  pub watch-replay :
      (store_name path : String) (answers : Answers)
      → IsTagged path answers
      → let v =
          watch_external_with_config next_poll c
            (beginning (new store_name) answers)
            (map (λ a. undisturbed) answers) in
        SameVersion (replay path v.delivered none) (latest path (last_listing [] answers) none)
        × (v.stopped ≡ false)
  watch-replay store_name path answers tagged =
      let (sent, goes_on) =
        watch-delivered (beginning (new store_name) answers) (new store_name) answers refl refl in
      (
        subst (λ d. SameVersion (replay path d none) (latest path (last_listing [] answers) none))
            (sym sent) (replay-poll_all store_name path answers tagged),
        goes_on,
      )
