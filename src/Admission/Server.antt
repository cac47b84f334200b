-- ===== src/Admission/Server.antt =====
-- crates/koprs-admission/src/webhook.rs: `run` and `serve` from the binds to the end of the drain, as
-- steps of the main task, of the task that waits for a signal and of the connections. Sockets,
-- hyper and the scheduler are the environment, which chooses the next event.
pub mod Probes
pub mod Connections
pub mod Examples
use koprs.Prelude.{
  ℕ, suc, zero, ◌≡◌, ◌==◌, Bool, true, false, Option, none, some, String, str_eq, if◌then◌else◌,
  is_some, List, [], ◌∷◌,
}
use koprs.Admission.Builder.{WebhookBuilder}

-- Where the main task is: `accept_failed` is its pause after an error of `accept`.
pub data Phase : Type 0 where
  starting : Phase
  arming : Phase
  binding : Phase
  bound : Phase
  serving : Phase
  accept_failed : Phase
  draining : Phase
  returned : Phase
  failed : Phase

-- The task of the signal: not spawned, waiting, past its store into `ready`, and past its send.
pub data SignalTask : Type 0 where
  absent : SignalTask
  waiting : SignalTask
  cleared : SignalTask
  sent : SignalTask

-- A connection that a task was spawned for, until its watcher is dropped.
pub data Connection : Type 0 where
  handshaking : Connection
  encrypted : Connection
  plain : Connection

pub record Server : Type 0 where
  pub phase : Phase
  pub signal : SignalTask
  pub ready : Bool
  pub shutdown : Bool
  pub connections : List Connection
  pub accepted : ℕ

pub data Event : Type 0 where
  health_bound : Event
  bind_failed : Event
  arm : Event
  signalled : Event
  notified : Event
  listener_bound : Event
  mark_ready : Event
  accept : Event
  accept_error : Event
  slept : Event
  handshake_done : ℕ → Event
  closed : ℕ → Event
  stop : Event
  drained : Event
  drain_timeout : Event

abbrev pub start : Server
start = record {
  phase = starting;
  signal = absent;
  ready = false;
  shutdown = false;
  connections = [];
  accepted = 0;
}

-- The handshake of a connection ends well, or its task ends.
unfoldable pub upgrade : ℕ → List Connection → Option (List Connection)
upgrade i [] = none
upgrade zero (handshaking ∷ cs) = some (encrypted ∷ cs)
upgrade zero (c ∷ cs) = none
upgrade (suc i) (c ∷ cs) = elim (upgrade i cs) [ none ↦ none | some cs' ↦ some (c ∷ cs') ]

unfoldable pub close : ℕ → List Connection → Option (List Connection)
close i [] = none
close zero (c ∷ cs) = some cs
close (suc i) (c ∷ cs) = elim (close i cs) [ none ↦ none | some cs' ↦ some (c ∷ cs') ]

abbrev with_connections : Server → Option (List Connection) → Option Server
with_connections s none = none
with_connections s (some cs) = some (record s { connections = cs })

-- What a new connection begins with.
abbrev first_state : Bool → Connection
first_state true = handshaking
first_state false = plain

module _ {W Tls : Type 0} (b : WebhookBuilder W Tls) where
  -- The main task up to `serve`.
  unfoldable pub start_up : Event → Phase → Server → Option Server
  start_up health_bound starting s = some (record s { phase = arming })
  start_up bind_failed starting s =
      if is_some b.health then some (record s { phase = failed }) else none
  start_up arm arming s =
      some (record s { phase = binding; signal = if b.graceful then waiting else absent })
  start_up listener_bound binding s = some (record s { phase = bound })
  start_up bind_failed binding s = some (record s { phase = failed })
  start_up mark_ready bound s = some (record s { phase = serving; ready = true })
  start_up e p s = none

  -- The spawned task: `ready.store(false)`, then the send.
  unfoldable pub signal_task : Event → SignalTask → Server → Option Server
  signal_task signalled waiting s = some (record s { signal = cleared; ready = false })
  signal_task notified cleared s = some (record s { signal = sent; shutdown = true })
  signal_task e t s = none

  -- `serve`: either branch of its `select!` may be taken when both are ready.
  unfoldable pub serve : Event → Phase → Server → Option Server
  serve accept serving s = some (record s {
    connections = first_state (is_some b.tls_settings) ∷ s.connections;
    accepted = suc s.accepted;
  })
  serve accept_error serving s = some (record s { phase = accept_failed })
  serve slept accept_failed s = some (record s { phase = serving })
  serve stop serving s = if s.shutdown then some (record s { phase = draining }) else none
  serve drained draining s = elim s.connections [
    | [] ↦ some (record s { phase = returned })
    | c ∷ cs ↦ none
  ]
  serve drain_timeout draining s = some (record s { phase = returned })
  serve e p s = none

  -- Which task an event is of; `none` when it cannot come now.
  unfoldable pub step : Event → Server → Option Server
  unfolding start_up signal_task serve
  step health_bound s = start_up health_bound s.phase s
  step bind_failed s = start_up bind_failed s.phase s
  step arm s = start_up arm s.phase s
  step listener_bound s = start_up listener_bound s.phase s
  step mark_ready s = start_up mark_ready s.phase s
  step signalled s = signal_task signalled s.signal s
  step notified s = signal_task notified s.signal s
  step (handshake_done i) s = with_connections s (upgrade i s.connections)
  step (closed i) s = with_connections s (close i s.connections)
  step e s = serve e s.phase s

  pub data Reach (s : Server) : Server → Type 0 where
    here : Reach s s
    next : {t u : Server} → Reach s t → (e : Event) → step e t ≡ some u → Reach s u

-- The answer of the health server to a request for a path.
unfoldable pub health_response : Bool → String → ℕ × String
health_response ready path =
    if str_eq path "/readyz" then if ready then (200, "ok") else (503, "not ready") else (200, "ok")
