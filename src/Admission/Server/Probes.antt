-- ===== src/Admission/Server/Probes.antt =====
-- crates/koprs-admission/src/webhook.rs: what `/readyz` answers.
use koprs.Prelude.{◌≡◌, ◌≢◌, ◌⊎◌, Bool, true, false, some, arith}
use koprs.Admission.Builder.{WebhookBuilder}
use koprs.Admission.Server.{
  Phase, SignalTask, Server, Event, Reach, step, start_up, signal_task, serve, health_response,
}
use koprs.Admission.Server

-- The webhook's listener has been bound.
abbrev has_listened : Phase → Bool
has_listened Server.starting = false
has_listened Server.arming = false
has_listened Server.binding = false
has_listened Server.failed = false
has_listened _ = true

abbrev has_started : Phase → Bool
has_started Server.serving = true
has_started Server.accept_failed = true
has_started Server.draining = true
has_started Server.returned = true
has_started _ = false

module _ {W Tls : Type 0} (b : WebhookBuilder W Tls) where
  -- The state that a run keeps: `ready` is only set by a main task that serves, the channel tells
  -- of a signal that was sent, and only a server that was asked to listens for signals.
  record Inv (s : Server) : Type 0 where
    listening : s.ready ≡ true → has_listened s.phase ≡ true
    told : s.shutdown ≡ true → s.signal ≡ Server.sent
    asked : s.signal ≢ Server.absent → b.graceful ≡ true
    armed : s.phase ≡ Server.starting → s.signal ≡ Server.absent
    armed' : s.phase ≡ Server.arming → s.signal ≡ Server.absent
    stopped : s.phase ≡ Server.draining → s.shutdown ≡ true
    stopped' : s.phase ≡ Server.returned → s.shutdown ≡ true

  step-Inv : (e : Event) (s u : Server) → step b e s ≡ some u → Inv s → Inv u
  unfolding step
  step-Inv e s u h i = record {
    listening = ground (arith, i.listening);
    told = ground (arith, i.told, i.armed, i.armed');
    asked = ground (arith, i.asked);
    armed = ground (arith, i.armed);
    armed' = ground (arith, i.armed, i.armed');
    stopped = ground (arith, i.stopped);
    stopped' = ground (arith, i.stopped, i.stopped');
  }

  start-Inv : Inv Server.start
  start-Inv = record {
    listening = ground arith;
    told = ground arith;
    asked = ground arith;
    armed = ground arith;
    armed' = ground arith;
    stopped = ground arith;
    stopped' = ground arith;
  }

  Reach-Inv : {s t : Server} → Inv s → Reach b s t → Inv t
  Reach-Inv i Server.here = i
  Reach-Inv i (Server.next {t = t} {u = u} r e h) = step-Inv e t u h (Reach-Inv i r)

  -- In any run, whatever comes when: while `/readyz` answers 200, the webhook's listener has been
  -- bound, and a server that stopped to accept connections, or returned, was configured for a
  -- graceful shutdown and got its signal.
  readyz_bound :
      {t : Server}
      → Reach b Server.start t
      → (health_response t.ready "/readyz" ≡ (200, "ok") → has_listened t.phase ≡ true)
        × ((t.phase ≡ Server.draining) ⊎ (t.phase ≡ Server.returned)
            → (b.graceful ≡ true) × (t.signal ≡ Server.sent))
  unfolding health_response
  readyz_bound {t = t} r =
      let i = Reach-Inv start-Inv r in
      (ground (arith, i.listening), ground (arith, i.told, i.asked, i.stopped, i.stopped'))

  -- The main task is past its store into `ready`, and the signal's task past its own is last.
  record Quiet (s : Server) : Type 0 where
    past : has_started s.phase ≡ true
    last : s.signal ≢ Server.waiting → s.ready ≡ false

  step-Quiet : (e : Event) (s u : Server) → step b e s ≡ some u → Quiet s → Quiet u
  unfolding step
  step-Quiet e s u h q = record {
    past = ground (arith, q.past);
    last = ground (arith, q.past, q.last);
  }

  Reach-Quiet : {s t : Server} → Quiet s → Reach b s t → Quiet t
  Reach-Quiet q Server.here = q
  Reach-Quiet q (Server.next {t = t} {u = u} r e h) = step-Quiet e t u h (Reach-Quiet q r)

  -- A signal that comes once the server serves switches `/readyz` to 503 for good, from the first
  -- thing that its task does: before the channel is told and through the drain, whatever comes when.
  pub readyz_after_signal :
      {s t : Server}
      → s.phase ≡ Server.serving
      → s.signal ≡ Server.waiting
      → Reach b s t
      → t.signal ≢ Server.waiting
      → health_response t.ready "/readyz" ≡ (503, "not ready")
  unfolding health_response
  readyz_after_signal {s = s} {t = t} serves waits r came =
      let q = Reach-Quiet (record { past = ground arith; last = ground arith }) r in
      ground (arith, q.last)
