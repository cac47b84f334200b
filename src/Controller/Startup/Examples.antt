-- ===== src/Controller/Startup/Examples.antt =====
-- crates/koprs/src/controller.rs: a standby that is stopped, and a signal that comes too early.
use koprs.Prelude.{◌≡◌, refl, true, false, none, some}
use koprs.Controller.Builder.{ControllerBuilder, resolve_leader_election}
use koprs.Leader.Config.{validate}
use koprs.Controller.Health.{health_response}
use koprs.Controller.Startup
use koprs.Controller.Startup.{Process, Reach}
use koprs.Controller.Startup.Probes.{readyz_switched}

abbrev builder : ControllerBuilder (Unit {0}) (Unit {0})
builder = record {
  watch_settings = tt;
  configure = none;
  health = some 8081;
  metrics = none;
  graceful = true;
  timeout = none;
  election = some (record {
    namespace = "default";
    name = "lock";
    identity = "pod-0";
    lease_duration = 15000000000;
    renew_deadline = 10000000000;
    retry_period = 2000000000;
  });
  timings = none;
  identity = none;
  workers = none;
}

abbrev standby : Process
standby = record Startup.start { phase = Startup.electing; signal = Startup.waiting; ready = true }

abbrev withdrawn : Process
withdrawn = record {
  phase = Startup.withdrawn;
  signal = Startup.sent;
  ready = false;
  shutdown = true;
}

begins : Reach builder Startup.start standby
unfolding Startup.step resolve_leader_election validate
begins =
    Startup.next
      (Startup.next
        (Startup.next
          (Startup.next (Startup.next Startup.here Startup.configure refl) Startup.health_bound
            refl)
          Startup.metrics_bound refl)
        Startup.arm refl)
      Startup.mark_ready refl

ends : Reach builder standby withdrawn
unfolding Startup.step resolve_leader_election validate
ends =
    Startup.next
      (Startup.next (Startup.next Startup.here Startup.signalled refl) Startup.notified refl)
      Startup.give_up refl

-- A signal between the start of its task and the store of `ready`: the controller reports ready.
early_signal : Reach builder Startup.start (record Startup.start {
  phase = Startup.electing;
  signal = Startup.sent;
  ready = true;
  shutdown = true;
})
unfolding Startup.step resolve_leader_election validate
early_signal =
    Startup.next
      (Startup.next
        (Startup.next
          (Startup.next
            (Startup.next
              (Startup.next (Startup.next Startup.here Startup.configure refl) Startup.health_bound
                refl)
              Startup.metrics_bound refl)
            Startup.arm refl)
          Startup.signalled refl)
        Startup.notified refl)
      Startup.mark_ready refl

readyz_switched_example : health_response false "/readyz" ≡ (503, "not ready")
readyz_switched_example =
    readyz_switched builder {p = standby} {q = withdrawn} refl refl ends (λ e. cc)
