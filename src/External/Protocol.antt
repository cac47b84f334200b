-- ===== src/External/Protocol.antt =====
-- crates/koprs-external/src/http.rs: the events of the HTTP poller.
use koprs.Prelude.{
  ℕ, ◌≤◌, ◌≡◌, refl, ap, ◌∙◌, String, Bool, true, false, Option, none, some, List, [], ◌∷◌, ◌++◌,
  length, length-append, Result, ok, err, arith,
}
use koprs.External.{ExternalError, ExternalEvent, added, modified, removed}
use koprs.External.Http.{
  Bytes, HttpResponse, HttpPoller, Request, Response, read_body, read_chunks, condition,
  add_headers, on_response, on_answer, on_headers, poll,
}

-- Whether the resource is there after an event, if the event may come.
abbrev pub next_seen : {A : Type 0} → Bool → ExternalEvent A → Option Bool
next_seen false (added r) = some true
next_seen true (modified r) = some true
next_seen true (removed r) = some false
next_seen _ _ = none

abbrev pub run_seen : {A : Type 0} → Bool → List (ExternalEvent A) → Option Bool
run_seen seen [] = some seen
run_seen seen (e ∷ es) = elim (next_seen seen e) [ none ↦ none | some seen' ↦ run_seen seen' es ]

abbrev pub events_of : {A : Type 0} → Result ExternalError (List A) → List A
events_of (ok events) = events
events_of (err e) = []

module _ (parse_name parse_value : String → Result String String) where
  on_response-seen :
      (p : HttpPoller) (r : Response)
      → let (out, p') = on_response parse_name parse_value p r in
        run_seen p.seen (events_of out) ≡ some p'.seen
  unfolding on_response
  on_response-seen p r = ground arith

  on_headers-seen :
      (p : HttpPoller) (send : Request → Result String Response)
      (h : Result ExternalError (List (String × String)))
      → let (out, p') = on_headers parse_name parse_value p send h in
        run_seen p.seen (events_of out) ≡ some p'.seen
  on_headers-seen p send (err e) = refl
  on_headers-seen p send (ok headers) = on_answer-seen (send _)
    where
      on_answer-seen :
          (r : Result String Response)
          → let (out, p') = on_answer parse_name parse_value p r in
            run_seen p.seen (events_of out) ≡ some p'.seen
      on_answer-seen (err e) = refl
      on_answer-seen (ok r) = on_response-seen p r

  pub poll-seen :
      (p : HttpPoller) (send : Request → Result String Response)
      → let (out, p') = poll parse_name parse_value p send in
        run_seen p.seen (events_of out) ≡ some p'.seen
  unfolding poll
  poll-seen p send =
      on_headers-seen p send (add_headers parse_name parse_value (condition p) p.extra_headers)

  -- The polls of a client that answers differently each time: all events, and the poller after.
  pub poll_all :
      HttpPoller
      → List (Request → Result String Response)
      → List (ExternalEvent HttpResponse) × HttpPoller
  poll_all p [] = ([], p)
  poll_all p (send ∷ sends) =
      let (out, p') = poll parse_name parse_value p send in
      let (events, p'') = poll_all p' sends in (events_of out ++ events, p'')

  run_seen-append :
      (seen : Bool) (es fs : List (ExternalEvent HttpResponse)) (mid : Bool)
      → run_seen seen es ≡ some mid
      → run_seen seen (es ++ fs) ≡ run_seen mid fs
  run_seen-append seen [] fs mid h = ap (λ b. run_seen b fs) (ground arith)
  run_seen-append false (added r ∷ es) fs mid h = run_seen-append true es fs mid h
  run_seen-append true (modified r ∷ es) fs mid h = run_seen-append true es fs mid h
  run_seen-append true (removed r ∷ es) fs mid h = run_seen-append false es fs mid h
  run_seen-append true (added r ∷ es) fs mid h = cc
  run_seen-append false (modified r ∷ es) fs mid h = cc
  run_seen-append false (removed r ∷ es) fs mid h = cc

  -- Whatever the endpoint answers, poll after poll, errors included: the events come in an order
  -- that a resource can go through. `Added` comes only while it is away, and `Modified` and
  -- `Removed` only while it is there, and the poller knows at the end which of the two holds.
  pub poll_all-seen :
      (p : HttpPoller) (sends : List (Request → Result String Response))
      → let (events, p') = poll_all p sends in run_seen p.seen events ≡ some p'.seen
  unfolding poll_all
  poll_all-seen p [] = refl
  poll_all-seen p (send ∷ sends) =
      let (out, p') = poll parse_name parse_value p send in
      run_seen-append p.seen (events_of out) _ p'.seen (poll-seen p send) ∙ poll_all-seen p' sends

length-read_chunks :
    (max : ℕ) (chunks : List (Result String Bytes)) (buf body : Bytes)
    → read_chunks max chunks buf ≡ ok body
    → length buf ≤ max
    → length body ≤ max
unfolding read_chunks
length-read_chunks max [] buf body h le = ground arith
length-read_chunks max (ok chunk ∷ rest) buf body h le =
    ground (arith, length-append buf chunk, length-read_chunks max rest (buf ++ chunk) body)
length-read_chunks max (err e ∷ rest) buf body h le = cc

-- A body that a limited poller accepts is no longer than its limit, whatever length the response
-- announced.
pub length-read_body :
    (r : Response) (max : ℕ) (body : Bytes) → read_body r (some max) ≡ ok body → length body ≤ max
unfolding read_body
length-read_body r max body h = length-read_chunks max r.chunks [] body (ground arith) (omega arith)
