-- ===== src/Admission/Server/Examples.antt =====
-- crates/koprs-admission/src/webhook.rs: a run of a server with TLS and a graceful shutdown.
use koprs.Prelude.{ℕ, ◌≤◌, ◌≡◌, refl, true, false, some, [], ◌∷◌, any}
use koprs.Admission.Builder.{WebhookBuilder}
use koprs.Admission.Server
use koprs.Admission.Server.{Server, Reach, health_response}
use koprs.Admission.Server.Probes.{readyz_after_signal}
use koprs.Admission.Server.Connections.{
  is_plain, no_plain_connection, has_stopped, stopped_accepting,
}

abbrev builder : WebhookBuilder ℕ ℕ
builder = record {
  port_number = 8443;
  tls_settings = some 0;
  health = some 8080;
  graceful = true;
  timeout = 10;
  routes = [];
}

abbrev serving_now : Server
serving_now = record Server.start { phase = Server.serving; signal = Server.waiting; ready = true }

started : Reach builder Server.start serving_now
unfolding Server.step
started =
    Server.next
      (Server.next (Server.next (Server.next Server.here Server.health_bound refl) Server.arm refl)
        Server.listener_bound refl)
      Server.mark_ready refl

abbrev drains : Server
drains = record {
  phase = Server.draining;
  signal = Server.sent;
  ready = false;
  shutdown = true;
  connections = Server.encrypted ∷ [];
  accepted = 1;
}

stopped : Reach builder serving_now drains
unfolding Server.step Server.upgrade
stopped =
    Server.next
      (Server.next
        (Server.next
          (Server.next (Server.next Server.here Server.accept refl) (Server.handshake_done 0) refl)
          Server.signalled refl)
        Server.notified refl)
      Server.stop refl

whole : Reach builder Server.start drains
unfolding Server.step Server.upgrade
whole =
    Server.next
      (Server.next
        (Server.next
          (Server.next (Server.next started Server.accept refl) (Server.handshake_done 0) refl)
          Server.signalled refl)
        Server.notified refl)
      Server.stop refl

ended : Reach builder drains (record drains { phase = Server.returned; connections = [] })
unfolding Server.step Server.close
ended = Server.next (Server.next Server.here (Server.closed 0) refl) Server.drained refl

-- A signal before `ready` is set is heard, and `/readyz` answers 200 all the same.
abbrev deaf : Server
deaf = record Server.start {
  phase = Server.serving;
  signal = Server.sent;
  ready = true;
  shutdown = true;
}

early_signal : Reach builder Server.start deaf
unfolding Server.step
early_signal =
    Server.next
      (Server.next
        (Server.next
          (Server.next
            (Server.next (Server.next Server.here Server.health_bound refl) Server.arm refl)
            Server.signalled refl)
          Server.notified refl)
        Server.listener_bound refl)
      Server.mark_ready refl

deaf_ready : health_response deaf.ready "/readyz" ≡ (200, "ok")
unfolding health_response
deaf_ready = refl

readyz_after_signal_example : health_response false "/readyz" ≡ (503, "not ready")
readyz_after_signal_example = readyz_after_signal builder refl refl stopped (λ e. cc)

no_plain_connection_example : any is_plain (Server.encrypted ∷ []) ≡ false
no_plain_connection_example = no_plain_connection builder refl whole

stopped_accepting_example : (has_stopped Server.returned ≡ true) × (drains.accepted ≡ 1) × (0 ≤ 1)
stopped_accepting_example = stopped_accepting builder refl ended
