-- ===== src/Controller/Startup/Probes.antt =====
-- crates/koprs/src/controller.rs: what `/readyz` of a controller answers.
use koprs.Prelude.{◌≡◌, ◌≢◌, Bool, true, false, some, is_some, arith}
use koprs.Controller.Builder.{ControllerBuilder}
use koprs.Controller.Health.{health_response}
use koprs.Controller.Startup
use koprs.Controller.Startup.{Phase, Process, Event, Reach, step, elects}

-- The start-up is over: the settings were accepted and the listeners that were asked for are bound.
abbrev has_started : Phase → Bool
has_started Startup.electing = true
has_started Startup.running = true
has_started Startup.withdrawn = true
has_started Startup.stopped = true
has_started Startup.deposed = true
has_started _ = false

abbrev is_early : Phase → Bool
is_early Startup.starting = true
is_early Startup.configured = true
is_early Startup.probed = true
is_early Startup.measured = true
is_early _ = false

abbrev is_configured : Phase → Bool
is_configured Startup.starting = false
is_configured Startup.refused = false
is_configured _ = true

module _ {Ctl Watch : Type 0} (b : ControllerBuilder Ctl Watch) where
  record Inv (p : Process) : Type 0 where
    begun : p.ready ≡ true → has_started p.phase ≡ true
    unheard : is_early p.phase ≡ true → p.signal ≡ Startup.absent
    accepted : is_configured p.phase ≡ true → is_some (elects b) ≡ true
    told : p.shutdown ≡ true → p.signal ≡ Startup.sent
    asked : p.signal ≢ Startup.absent → b.graceful ≡ true
    left : p.phase ≡ Startup.withdrawn → p.shutdown ≡ true

  step-Inv : (e : Event) (p q : Process) → step b e p ≡ some q → Inv p → Inv q
  unfolding step
  step-Inv e p q h i = record {
    begun = ground (arith, i.begun);
    unheard = ground (arith, i.unheard);
    accepted = ground (arith, i.accepted);
    told = ground (arith, i.told, i.unheard);
    asked = ground (arith, i.asked);
    left = ground (arith, i.left);
  }

  start-Inv : Inv Startup.start
  start-Inv = record {
    begun = ground arith;
    unheard = ground arith;
    accepted = ground arith;
    told = ground arith;
    asked = ground arith;
    left = ground arith;
  }

  Reach-Inv : {p q : Process} → Inv p → Reach b p q → Inv q
  Reach-Inv i Startup.here = i
  Reach-Inv i (Startup.next {q = q} {r = r} steps e h) = step-Inv e q r h (Reach-Inv i steps)

  -- In any run, whatever comes when: while `/readyz` answers 200, the settings of the election were
  -- accepted and the listeners that were asked for are bound; and a run that ends before it leads was
  -- configured for a graceful shutdown and got its signal.
  readyz_started :
      {q : Process}
      → Reach b Startup.start q
      → (health_response q.ready "/readyz" ≡ (200, "ok")
          → (has_started q.phase ≡ true) × (is_some (elects b) ≡ true))
        × (q.phase ≡ Startup.withdrawn → (b.graceful ≡ true) × (q.signal ≡ Startup.sent))
  unfolding health_response
  readyz_started {q = q} steps =
      let i = Reach-Inv start-Inv steps in
      (ground (arith, i.begun, i.accepted), ground (arith, i.told, i.asked, i.left))

  -- The main task is past its store into `ready`.
  record Quiet (p : Process) : Type 0 where
    past : has_started p.phase ≡ true
    last : p.signal ≢ Startup.waiting → p.ready ≡ false

  step-Quiet : (e : Event) (p q : Process) → step b e p ≡ some q → Quiet p → Quiet q
  unfolding step
  step-Quiet e p q h i = record {
    past = ground (arith, i.past);
    last = ground (arith, i.past, i.last);
  }

  Reach-Quiet : {p q : Process} → Quiet p → Reach b p q → Quiet q
  Reach-Quiet i Startup.here = i
  Reach-Quiet i (Startup.next {q = q} {r = r} steps e h) = step-Quiet e q r h (Reach-Quiet i steps)

  -- A signal that comes after the start-up switches `/readyz` of a controller to 503 for good,
  -- whether it is still waiting for the lease or leads, and whatever comes when.
  pub readyz_switched :
      {p q : Process}
      → has_started p.phase ≡ true
      → p.signal ≡ Startup.waiting
      → Reach b p q
      → q.signal ≢ Startup.waiting
      → health_response q.ready "/readyz" ≡ (503, "not ready")
  unfolding health_response
  readyz_switched {p = p} {q = q} begun waits steps came =
      let i = Reach-Quiet (record { past = begun; last = ground arith }) steps in
      ground (arith, i.last)
