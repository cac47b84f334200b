-- ===== src/Admission/Server/Connections.antt =====
-- crates/koprs-admission/src/webhook.rs: which connections are served, and what a stop leaves.
use koprs.Prelude.{
  ℕ, zero, suc, ◌≤◌, ◌≡◌, ◌∙◌, refl, Bool, true, false, some, is_some, List, [], ◌∷◌, any, length,
  arith, Option-cases, inl, inr,
}
use koprs.Admission.Builder.{WebhookBuilder}
use koprs.Admission.Server.{Phase, Server, Event, Connection, Reach, step, upgrade, close}
use koprs.Admission.Server

-- A connection that carries requests in the clear.
abbrev pub is_plain : Connection → Bool
is_plain Server.plain = true
is_plain _ = false

upgrade_lem :
    (i : ℕ) (cs ds : List Connection)
    → upgrade i cs ≡ some ds
    → (any is_plain cs ≡ false → any is_plain ds ≡ false) × (length ds ≡ length cs)
unfolding upgrade
upgrade_lem i [] ds h = cc
upgrade_lem zero (c ∷ cs) ds h = ground arith
upgrade_lem (suc i) (c ∷ cs) ds h = elim (Option-cases (upgrade i cs)) [
  | inl e ↦ ground arith
  | inr (cs', e) ↦ ground (arith, upgrade_lem i cs cs' e)
]

close_lem :
    (i : ℕ) (cs ds : List Connection)
    → close i cs ≡ some ds
    → (any is_plain cs ≡ false → any is_plain ds ≡ false) × (length ds ≤ length cs)
unfolding close
close_lem i [] ds h = cc
close_lem zero (c ∷ cs) ds h = ground arith
close_lem (suc i) (c ∷ cs) ds h = elim (Option-cases (close i cs)) [
  | inl e ↦ ground arith
  | inr (cs', e) ↦ ground (arith, close_lem i cs cs' e)
]

abbrev pub has_stopped : Phase → Bool
has_stopped Server.draining = true
has_stopped Server.returned = true
has_stopped _ = false

module _ {W Tls : Type 0} (b : WebhookBuilder W Tls) where
  step-is_plain :
      (e : Event) (s u : Server)
      → step b e s ≡ some u
      → is_some b.tls_settings ≡ true
      → any is_plain s.connections ≡ false
      → any is_plain u.connections ≡ false
  unfolding step
  step-is_plain (Server.handshake_done i) s u h t p =
      elim (Option-cases (upgrade i s.connections)) [
        | inl e ↦ ground arith
        | inr (cs, e) ↦ ground (arith, upgrade_lem i s.connections cs e)
      ]
  step-is_plain (Server.closed i) s u h t p = elim (Option-cases (close i s.connections)) [
    | inl e ↦ ground arith
    | inr (cs, e) ↦ ground (arith, close_lem i s.connections cs e)
  ]
  step-is_plain e s u h t p = ground arith

  -- Of a server with TLS settings no connection ever reaches the router in the clear: in every run,
  -- each open one is in its handshake or came out of it.
  pub no_plain_connection :
      {t : Server}
      → is_some b.tls_settings ≡ true
      → Reach b Server.start t
      → any is_plain t.connections ≡ false
  no_plain_connection h Server.here = refl
  no_plain_connection h (Server.next {t = t} {u = u} r e st) =
      step-is_plain e t u st h (no_plain_connection h r)

  step-has_stopped :
      (e : Event) (s u : Server)
      → step b e s ≡ some u
      → has_stopped s.phase ≡ true
      → (has_stopped u.phase ≡ true)
        × (u.accepted ≡ s.accepted)
        × (length u.connections ≤ length s.connections)
  unfolding step
  step-has_stopped (Server.handshake_done i) s u h p =
      elim (Option-cases (upgrade i s.connections)) [
        | inl e ↦ ground arith
        | inr (cs, e) ↦ ground (arith, upgrade_lem i s.connections cs e)
      ]
  step-has_stopped (Server.closed i) s u h p = elim (Option-cases (close i s.connections)) [
    | inl e ↦ ground arith
    | inr (cs, e) ↦ ground (arith, close_lem i s.connections cs e)
  ]
  step-has_stopped e s u h p = ground arith

  -- Once the main task has left its accept loop, no connection is accepted any more, whatever comes
  -- when, and the open ones only become fewer.
  pub stopped_accepting :
      {s t : Server}
      → has_stopped s.phase ≡ true
      → Reach b s t
      → (has_stopped t.phase ≡ true)
        × (t.accepted ≡ s.accepted)
        × (length t.connections ≤ length s.connections)
  stopped_accepting h Server.here = (h, refl, omega arith)
  stopped_accepting h (Server.next {t = t} {u = u} r e st) =
      let (h', same, fewer) = stopped_accepting h r in
      let (h'', same', fewer') = step-has_stopped e t u st h' in (h'', same' ∙ same, omega arith)
