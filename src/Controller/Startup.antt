-- ===== src/Controller/Startup.antt =====
-- crates/koprs/src/controller.rs: `run` as its tasks interleave: the main task from the settings to
-- its end, and the task that waits for a signal. Controller/Run has the election and the release in
-- detail; here they are events.
pub mod Probes
pub mod Examples
use koprs.Prelude.{
  Bool, true, false, ◌≡◌, Option, none, some, is_some, if◌then◌else◌, Result, ok, err,
}
use koprs.Controller.Builder.{ControllerBuilder, resolve_leader_election}

-- `refused` is an error of the start-up, `deposed` the loss of the lease.
pub data Phase : Type 0 where
  starting : Phase
  configured : Phase
  probed : Phase
  measured : Phase
  armed : Phase
  electing : Phase
  running : Phase
  withdrawn : Phase
  stopped : Phase
  deposed : Phase
  refused : Phase

pub data SignalTask : Type 0 where
  absent : SignalTask
  waiting : SignalTask
  cleared : SignalTask
  sent : SignalTask

pub record Process : Type 0 where
  pub phase : Phase
  pub signal : SignalTask
  pub ready : Bool
  pub shutdown : Bool

pub data Event : Type 0 where
  configure : Event
  health_bound : Event
  metrics_bound : Event
  bind_failed : Event
  arm : Event
  mark_ready : Event
  acquired : Event
  give_up : Event
  stream_ended : Event
  lease_lost : Event
  signalled : Event
  notified : Event

abbrev pub start : Process
start = record { phase = starting; signal = absent; ready = false; shutdown = false }

module _ {Ctl Watch : Type 0} (b : ControllerBuilder Ctl Watch) where
  -- Whether the settings of an election were given, if they are accepted.
  abbrev pub elects : Option Bool
  elects = elim (resolve_leader_election b) [ err e ↦ none | ok c ↦ some (is_some c) ]

  abbrev pub after_configure : Option Bool → Phase
  after_configure none = refused
  after_configure (some c) = configured

  abbrev pub after_ready : Option Bool → Phase
  after_ready (some true) = electing
  after_ready _ = running

  -- `health_bound` and `metrics_bound` also stand for a port that was not asked for.
  unfoldable pub main_task : Event → Phase → Process → Option Process
  main_task configure starting p = some (record p { phase = after_configure elects })
  main_task health_bound configured p = some (record p { phase = probed })
  main_task bind_failed configured p =
      if is_some b.health then some (record p { phase = refused }) else none
  main_task metrics_bound probed p = some (record p { phase = measured })
  main_task bind_failed probed p =
      if is_some b.metrics then some (record p { phase = refused }) else none
  main_task arm measured p =
      some (record p { phase = armed; signal = if b.graceful then waiting else absent })
  main_task mark_ready armed p = some (record p { phase = after_ready elects; ready = true })
  main_task acquired electing p = some (record p { phase = running })
  main_task give_up electing p = if p.shutdown then some (record p { phase = withdrawn }) else none
  main_task stream_ended running p = some (record p { phase = stopped })
  main_task lease_lost running p = elim elects [
    | none ↦ none
    | some c ↦ if c then some (record p { phase = deposed }) else none
  ]
  main_task e ph p = none

  unfoldable pub signal_task : Event → SignalTask → Process → Option Process
  signal_task signalled waiting p = some (record p { signal = cleared; ready = false })
  signal_task notified cleared p = some (record p { signal = sent; shutdown = true })
  signal_task e t p = none

  unfoldable pub step : Event → Process → Option Process
  unfolding main_task signal_task
  step signalled p = signal_task signalled p.signal p
  step notified p = signal_task notified p.signal p
  step e p = main_task e p.phase p

  pub data Reach (p : Process) : Process → Type 0 where
    here : Reach p p
    next : {q r : Process} → Reach p q → (e : Event) → step e q ≡ some r → Reach p r
