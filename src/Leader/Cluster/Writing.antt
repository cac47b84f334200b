-- ===== src/Leader/Cluster/Writing.antt =====
-- crates/koprs/src/leader.rs: the steps that write the lease keep the invariant.
use koprs.Prelude.{
  ℕ, suc, ◌+◌, ◌≤◌, ◌≡◌, ◌≢◌, refl, sym, ap, subst, ◌∙◌, inl, inr, Option, none, some, ok, arith,
  Bool-cases,
}
use koprs.Leader.Config.{LeaderElectionConfig}
use koprs.Leader.Lease.{Lease, ResourceVersion}
use koprs.Leader.Elector.Attempt.{
  Observed, LeaderElector, Plan, finished, create, replace, observe, after_write, changed, opt_eq,
}
use koprs.Leader.Elector.Expiry.{observe-new, observe-old}
use koprs.Leader.Elector.Renewal.{config-observe}
use koprs.Leader.Cluster.{
  Phase, resting, reading, writing, Replica, Server, Cluster, accepted, versioned, written, update,
  limit,
}
use koprs.Leader.Cluster.Invariant.{
  term, tenure, IsSafe, IsOf, StoredOk, Knows, ObservedOk, PhaseOk, InTime, LeadOk, ReplicaOk, Inv,
}
use koprs.Leader.Cluster.Local.{update_all, opt_eq-eq, none-some}

module _ (config : ℕ → LeaderElectionConfig) (latency : ℕ) where
  -- After a write the version that a replica knew is no more the current one.
  Knows-written :
      (i j t : ℕ) (sv : Server) (l : Lease) (P Q : Type 0) (rv : Option ResourceVersion)
      → Knows config latency j sv P rv
      → Knows config latency j (written sv l i t) Q rv
  Knows-written i j t sv l P Q none h = tt
  Knows-written i j t sv l P Q (some v) (le, h) = (omega arith, λ e. absurd (omega arith))

  ObservedOk-written :
      (i j t : ℕ) (sv : Server) (l : Lease) (o : Option Observed)
      → ObservedOk config latency j sv o
      → ObservedOk config latency j (written sv l i t) o
  ObservedOk-written i j t sv l none h = tt
  ObservedOk-written i j t sv l (some o) h = Knows-written i j t sv l _ _ o.resource_version h

  PhaseOk-written :
      (i j now t : ℕ) (sv : Server) (l : Lease) (p : Phase)
      → PhaseOk config latency j now sv p
      → PhaseOk config latency j now (written sv l i t) p
  PhaseOk-written i j now t sv l (resting w) h = tt
  PhaseOk-written i j now t sv l (reading st) h = h
  PhaseOk-written i j now t sv l (writing st (finished a)) h = h
  PhaseOk-written i j now t sv l (writing st (create m)) h = h
  PhaseOk-written i j now t sv l (writing st (replace m)) (le, own, k) =
      (le, own, Knows-written i j t sv l _ _ m.metadata.resource_version k)

  accepted-replace :
      (cur m l : Lease)
      → accepted (some cur) (replace m) ≡ some l
      → (m.metadata.resource_version ≡ cur.metadata.resource_version) × (m ≡ l)
  accepted-replace cur m l e =
      elim (Bool-cases (opt_eq m.metadata.resource_version cur.metadata.resource_version)) [
        | inl same ↦ (opt_eq-eq _ _ same, ground arith)
        | inr other ↦ absurd (ground arith)
      ]

  -- What a write in flight says of the server, if the server accepts it.
  accepted_facts :
      (i now started : ℕ) (sv : Server) (p : Plan) (l : Lease) (st : Option Lease)
      → StoredOk config latency sv.version sv.owner st
      → PhaseOk config latency i now sv (writing started p)
      → accepted st p ≡ some l
      → (started ≤ now)
        × IsOf config latency i l
        × (st ≢ none → sv.owner ≢ i → sv.stamp + term config latency sv.owner ≤ started + latency)
  accepted_facts i now started sv (create m) l none so (le, own) e =
      let same : m ≡ l = cc in
      (le, subst (IsOf config latency i) same own, λ there. absurd (there refl))
  accepted_facts i now started sv (replace m) l (some cur) so (le, own, k) e =
      let (ver, same) = accepted-replace cur m l e in
      (
        le,
        subst (IsOf config latency i) same own,
        λ _ ne. (subst (Knows config latency i sv _) (ver ∙ so.1) k).1 refl ne,
      )
  accepted_facts i now started sv (finished a) l none so h e = cc
  accepted_facts i now started sv (finished a) l (some cur) so h e = cc
  accepted_facts i now started sv (replace m) l none so h e = cc
  accepted_facts i now started sv (create m) l (some cur) so h e = cc

  within_tenure :
      (j now q : ℕ) (p : Phase)
      → InTime config latency j now q p
      → now ≤ q + tenure config latency j
  within_tenure j now q (resting w) h = omega arith
  within_tenure j now q (reading w) h = omega arith
  within_tenure j now q (writing w x) h = omega arith

  module _ (safe : IsSafe config latency) where
    -- A leader's tenure is over when another replica's write may land.
    overdue :
        (j now started q : ℕ) (sv : Server) (p : Phase)
        → sv.owner ≡ j
        → q ≤ sv.stamp
        → started ≤ now
        → InTime config latency j now q p
        → sv.stamp + term config latency sv.owner ≤ started + latency
        → ⊥
    overdue j now started q sv p o qs le it b =
        omega (arith, within_tenure j now q p it, safe.margin j, ap (term config latency) o)

    LeadOk-written :
        (i j now started : ℕ) (sv : Server) (l : Lease) (leads : Option ℕ) (p : Phase)
        → j ≢ i
        → started ≤ now
        → (sv.stored ≢ none
            → sv.owner ≢ i
            → sv.stamp + term config latency sv.owner ≤ started + latency)
        → LeadOk config latency j now sv leads p
        → LeadOk config latency j now (written sv l i now) leads p
    LeadOk-written i j now started sv l none p ne le b h = tt
    LeadOk-written i j now started sv l (some q) p ne le b (o, st, qs, it) =
        absurd (overdue j now started q sv p o qs le it (b st (λ e. ne (sym o ∙ e))))

    -- A step that writes: the invariant needs only the writer's new state.
    written-Inv :
        (s : Cluster) (i started : ℕ) (p : Plan) (l : Lease) (r : Replica)
        → Inv config latency s
        → (s.replicas i).phase ≡ writing started p
        → accepted s.server.stored p ≡ some l
        → (started ≤ s.now → ReplicaOk config latency i s.now (written s.server l i s.now) r)
        → Inv config latency
            (record s { server = written s.server l i s.now; replicas = update s.replicas i r })
    written-Inv s i started p l r v e a own =
        let (le, of, b) =
          accepted_facts i s.now started s.server p l s.server.stored v.server.stored
            (subst (PhaseOk config latency i s.now s.server) e (v.replicas i).phase) a in
        record {
          server = record { stamped = omega arith; stored = (of, refl) };
          replicas =
              update_all (λ j. ReplicaOk config latency j s.now (written s.server l i s.now))
                s.replicas i r (own le)
                (λ j ne.
                  let h = v.replicas j in
                  record {
                    same = h.same;
                    observed =
                        ObservedOk-written i j s.now s.server l (s.replicas j).elector.observed
                          h.observed;
                    phase = PhaseOk-written i j s.now s.now s.server l (s.replicas j).phase h.phase;
                    lead =
                        LeadOk-written i j s.now started s.server l (s.replicas j).leads
                          (s.replicas j).phase ne le b h.lead;
                  });
        }

  -- The new observation of the writer.
  observe-written :
      (i started : ℕ) (sv : Server) (el : LeaderElector) (l : Lease) (t : ℕ)
      → ObservedOk config latency i sv el.observed
      → ObservedOk config latency i
          (written sv l i t)
          (observe el (versioned l (suc sv.version)) started).observed
  observe-written i started sv el l t h =
      let new = versioned l (suc sv.version) in
      let P = λ (e : LeaderElector). ObservedOk config latency i (written sv l i t) e.observed in
      elim (Bool-cases (changed el.observed (some (suc sv.version)))) [
        | inl e ↦
            subst P (sym (observe-new el new started e))
              (omega arith, λ _ other. absurd (other refl))
        | inr e ↦
            subst P (sym (observe-old el new started e))
              (ObservedOk-written i i t sv l el.observed h)
      ]

  -- The timer of a writer that learns of its success at `ack`.
  ack-InTime :
      (i now started ack : ℕ) (sv : Server) (leads : Option ℕ) (p : Plan)
      → started ≤ now
      → now ≤ ack
      → ack ≤ limit config latency i leads started
      → LeadOk config latency i now sv leads (writing started p)
      → InTime config latency i now started (resting (ack + (config i).retry_period))
  ack-InTime i now started ack sv none p le a b h = (omega arith, omega arith)
  ack-InTime i now started ack sv (some q) p le a b (o, st, qs, (it, late)) =
      (omega arith, omega arith)

  -- The timer of a writer that does not.
  unseen_in_time :
      (i now started wake : ℕ) (sv : Server) (l : Lease) (leads : Option ℕ) (p : Plan)
      → started ≤ now
      → now ≤ wake
      → wake ≤ limit config latency i leads started + (config i).retry_period
      → LeadOk config latency i now sv leads (writing started p)
      → LeadOk config latency i now (written sv l i now) leads (resting wake)
  unseen_in_time i now started wake sv l none p le a b h = tt
  unseen_in_time i now started wake sv l (some q) p le a b (o, st, qs, (it, late)) =
      (refl, (λ e. none-some (sym e)), omega arith, (a, omega arith))

  module _ (safe : IsSafe config latency) where
    pub accept-Inv :
        (s : Cluster) (i started ack : ℕ) (p : Plan) (l : Lease)
        → Inv config latency s
        → (s.replicas i).phase ≡ writing started p
        → accepted s.server.stored p ≡ some l
        → s.now ≤ ack
        → ack ≤ limit config latency i (s.replicas i).leads started
        → Inv config latency (record s {
          server = written s.server l i s.now;
          replicas = update s.replicas i (record {
            elector =
                (after_write
                  (s.replicas i).elector
                  started
                  (ok (versioned l (suc s.server.version)))).1;
            leads = some started;
            phase = resting (ack + (config i).retry_period);
          });
        })
    unfolding after_write
    accept-Inv s i started ack p l v e a le b =
        let h = v.replicas i in
        written-Inv safe s i started p l _ v e a (λ since. record {
          same =
              config-observe (s.replicas i).elector (versioned l (suc s.server.version)) started
              ∙ h.same;
          observed = observe-written i started s.server (s.replicas i).elector l s.now h.observed;
          phase = tt;
          lead = (
            refl,
            (λ x. none-some (sym x)),
            since,
            ack-InTime i s.now started ack s.server (s.replicas i).leads p since le b
                (subst (LeadOk config latency i s.now s.server (s.replicas i).leads) e h.lead),
          );
        })

    pub accept_unseen-Inv :
        (s : Cluster) (i started wake : ℕ) (p : Plan) (l : Lease)
        → Inv config latency s
        → (s.replicas i).phase ≡ writing started p
        → accepted s.server.stored p ≡ some l
        → s.now ≤ wake
        → wake ≤ limit config latency i (s.replicas i).leads started + (config i).retry_period
        → Inv config latency (record s {
          server = written s.server l i s.now;
          replicas = update s.replicas i (record (s.replicas i) { phase = resting wake });
        })
    accept_unseen-Inv s i started wake p l v e a le b =
        let h = v.replicas i in
        written-Inv safe s i started p l _ v e a (λ since. record {
          same = h.same;
          observed =
              ObservedOk-written i i s.now s.server l (s.replicas i).elector.observed h.observed;
          phase = tt;
          lead =
              unseen_in_time i s.now started wake s.server l (s.replicas i).leads p since le b
                (subst (LeadOk config latency i s.now s.server (s.replicas i).leads) e h.lead);
        })
