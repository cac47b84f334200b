-- ===== src/Leader/Cluster/Reading.antt =====
-- crates/koprs/src/leader.rs: an answered GET keeps the invariant.
use koprs.Prelude.{
  ℕ, ◌+◌, ◌-◌, ◌≤◌, ◌<◌, ◌≡◌, ◌≢◌, refl, sym, ap, subst, ◌∙◌, inl, inr, Bool, true, false, Option,
  none, some, ℤ, pos, arith, leb→le, Bool-cases, true≢false, String, str_eq-false,
}
use koprs.Leader.Config.{LeaderElectionConfig, from_secs}
use koprs.Leader.Config.Bounds.{validate_iff}
use koprs.Leader.Lease.{Lease, ResourceVersion, MicroTime}
use koprs.Leader.Elector.Attempt.{
  Observed, LeaderElector, Plan, finished, create, replace, holder, holds, observe,
  observed_expired, expired_at, after_get, decide, first_lease, next_lease, changed, non_empty,
  stated_duration,
}
use koprs.Leader.Elector.Expiry.{observe-new, observe-old}
use koprs.Leader.Elector.Renewal.{config-observe}
use koprs.Leader.Cluster.{reading, writing, Server, Cluster, set, answered}
use koprs.Leader.Cluster.Invariant.{
  term, IsSafe, IsOf, StoredOk, Knows, ObservedOk, PhaseOk, LeadOk, ReplicaOk, Inv,
}
use koprs.Leader.Cluster.Local.{set-Inv, opt_eq-eq, none-some}

module _ (config : ℕ → LeaderElectionConfig) (latency : ℕ) where
  -- The observation that a replica has of the stored lease after it read it.
  abbrev Fresh : ℕ → Server → Option Observed → Type 0
  Fresh i sv none = ⊥
  Fresh i sv (some o) =
      (o.resource_version ≡ some sv.version)
      × (sv.owner ≢ i
          → (sv.stamp ≤ o.observed_at + latency)
            × (o.lease_duration ≡ term config latency sv.owner))

  old-Fresh :
      (i : ℕ) (sv : Server) (o : Option Observed) (rv : Option ResourceVersion)
      → changed o rv ≡ false
      → rv ≡ some sv.version
      → ObservedOk config latency i sv o
      → Fresh i sv o
  old-Fresh i sv none rv unchanged ver h = cc
  old-Fresh i sv (some o) rv unchanged ver h =
      let e : o.resource_version ≡ some sv.version =
        opt_eq-eq o.resource_version rv (ground arith) ∙ ver in
      (e, (subst (Knows config latency i sv _) e h).1 refl)

  stated_term :
      (own : ℕ) (d : Option ℤ) (n : ℕ) → d ≡ some (pos n) → stated_duration own d ≡ from_secs n
  stated_term own d n e = rw e

  observe-Fresh :
      (i now started : ℕ) (sv : Server) (el : LeaderElector) (l : Lease)
      → sv.stamp ≤ now
      → now ≤ started + latency
      → StoredOk config latency sv.version sv.owner (some l)
      → ObservedOk config latency i sv el.observed
      → Fresh i sv (observe el l started).observed
  observe-Fresh i now started sv el l st le ((own, dur), ver) h =
      elim (Bool-cases (changed el.observed l.metadata.resource_version)) [
        | inl e ↦
            subst (λ x. Fresh i sv x.observed) (sym (observe-new el l started e))
              (ver, λ _. (omega arith, stated_term _ _ _ dur))
        | inr e ↦
            subst (λ x. Fresh i sv x.observed) (sym (observe-old el l started e))
              (old-Fresh i sv el.observed l.metadata.resource_version e ver h)
      ]

  Fresh-ObservedOk :
      (i : ℕ) (sv : Server) (o : Option Observed) → Fresh i sv o → ObservedOk config latency i sv o
  Fresh-ObservedOk i sv (some o) (e, h) =
      subst (Knows config latency i sv _) (sym e) (omega arith, λ _ ne. h ne)
  Fresh-ObservedOk i sv none h = tt

  -- A lease that is read as expired ran out, up to the latency.
  expired-bound :
      (i started : ℕ) (sv : Server) (o : Option Observed)
      → 0 < term config latency sv.owner
      → Fresh i sv o
      → expired_at o started ≡ true
      → sv.owner ≢ i
      → sv.stamp + term config latency sv.owner ≤ started + latency
  expired-bound i started sv (some o) some_time (e, h) late ne =
      let (p, q) = h ne in
      let r : o.lease_duration ≤ started - o.observed_at = leb→le _ _ late in omega arith
  expired-bound i started sv none some_time h late ne = absurd h

  decide-PhaseOk :
      (i now started : ℕ) (sv : Server) (found : Option String) (we_hold expired : Bool)
      (sent : Lease)
      → started ≤ now
      → IsOf config latency i sent
      → sent.metadata.resource_version ≡ some sv.version
      → found ≢ none
      → (sv.owner ≢ i → we_hold ≡ false)
      → (expired ≡ true
          → sv.owner ≢ i
          → sv.stamp + term config latency sv.owner ≤ started + latency)
      → PhaseOk config latency i now sv (writing started (decide found we_hold expired sent))
  decide-PhaseOk i now started sv none wh ex sent le own ver there mine late = absurd (there refl)
  decide-PhaseOk i now started sv (some o) false false sent le own ver there mine late = le
  decide-PhaseOk i now started sv (some o) true ex sent le own ver there mine late = (
    le,
    own,
    subst (Knows config latency i sv _) (sym ver)
        (omega arith, λ _ ne. absurd (true≢false (mine ne))),
  )
  decide-PhaseOk i now started sv (some o) false true sent le own ver there mine late =
      (le, own, subst (Knows config latency i sv _) (sym ver) (omega arith, λ _ ne. late refl ne))

  next_lease-version :
      (c : LeaderElectionConfig) (micro : MicroTime) (we_hold : Bool) (l : Lease)
      → (next_lease c micro we_hold l).metadata.resource_version ≡ l.metadata.resource_version
  unfolding next_lease
  next_lease-version c micro we_hold l = refl

  to_writing :
      (i now started : ℕ) (sv : Server) (leads : Option ℕ) (p : Plan)
      → LeadOk config latency i now sv leads (reading started)
      → LeadOk config latency i now sv leads (writing started p)
  to_writing i now started sv none p h = tt
  to_writing i now started sv (some q) p h = h

  module _ (safe : IsSafe config latency) where
    some_identity : (i : ℕ) → non_empty (some (config i).identity) ≡ some (config i).identity
    some_identity i = rw (
        str_eq-false (config i).identity "" ((validate_iff (config i)).0 (safe.valid i)).identified)

    some_term : (i : ℕ) → 0 < term config latency i
    some_term i = omega (arith, safe.margin i)

    first_lease-IsOf :
        (i : ℕ) (micro : MicroTime) → IsOf config latency i (first_lease (config i) micro)
    unfolding first_lease
    first_lease-IsOf i micro = (some_identity i, refl)

    next_lease-IsOf :
        (i : ℕ) (micro : MicroTime) (we_hold : Bool) (l : Lease)
        → IsOf config latency i (next_lease (config i) micro we_hold l)
    unfolding next_lease
    next_lease-IsOf i micro we_hold l = (some_identity i, refl)

    not_mine :
        (i j : ℕ) (l : Lease)
        → holder l ≡ some (config j).identity
        → j ≢ i
        → holds (config i) l ≡ false
    not_mine i j l e ne = rw e (str_eq-false _ _ (λ same. ne (safe.distinct j i same)))

    -- What a replica knows and sends after the GET.
    get_answer :
        (i now started : ℕ) (micro : MicroTime) (sv : Server) (el : LeaderElector)
        (st : Option Lease)
        → el.config ≡ config i
        → started ≤ now
        → now ≤ started + latency
        → sv.stamp ≤ now
        → StoredOk config latency sv.version sv.owner st
        → ObservedOk config latency i sv el.observed
        → ((after_get el started micro st).0.config ≡ config i)
          × ObservedOk config latency i sv (after_get el started micro st).0.observed
          × PhaseOk config latency i now sv (writing started (after_get el started micro st).1)
    unfolding after_get observed_expired
    get_answer i now started micro sv el none same le lag st so h = (
      same,
      h,
      (
        le,
        subst (λ c. IsOf config latency i (first_lease c micro)) (sym same)
            (first_lease-IsOf i micro),
      ),
    )
    get_answer i now started micro sv el (some l) same le lag st so h =
        let fresh = observe-Fresh i now started sv el l st lag so h in
        let c = config-observe el l started ∙ same in
        (
          c,
          Fresh-ObservedOk i sv (observe el l started).observed fresh,
          decide-PhaseOk i now started sv (holder l) (holds el.config l)
              (expired_at (observe el l started).observed started)
              (next_lease el.config micro (holds el.config l) l) le
              (subst (λ k. IsOf config latency i (next_lease k micro (holds el.config l) l))
                (sym same) (next_lease-IsOf i micro _ l))
              (next_lease-version el.config micro (holds el.config l) l ∙ so.1)
              (λ free. none-some (sym free ∙ so.0.0))
              (λ ne. ap (λ k. holds k l) same ∙ not_mine i sv.owner l so.0.0 ne)
              (λ late ne.
                expired-bound i started sv (observe el l started).observed (some_term sv.owner)
                  fresh late ne),
        )

    answered-ReplicaOk :
        (i now started : ℕ) (sv : Server) (leads : Option ℕ) (el : LeaderElector) (p : Plan)
        → el.config ≡ config i
        → ObservedOk config latency i sv el.observed
        → PhaseOk config latency i now sv (writing started p)
        → LeadOk config latency i now sv leads (reading started)
        → ReplicaOk config latency i now sv (answered config latency i now leads started (el, p))
    answered-ReplicaOk i now started sv leads el (finished a) same h ph lead = record {
      same = same;
      observed = h;
      phase = tt;
      lead = tt;
    }
    answered-ReplicaOk i now started sv leads el (create l) same h ph lead = record {
      same = same;
      observed = h;
      phase = ph;
      lead = to_writing i now started sv leads _ lead;
    }
    answered-ReplicaOk i now started sv leads el (replace l) same h ph lead = record {
      same = same;
      observed = h;
      phase = ph;
      lead = to_writing i now started sv leads _ lead;
    }

    pub read-Inv :
        (s : Cluster) (i started : ℕ) (micro : MicroTime)
        → Inv config latency s
        → (s.replicas i).phase ≡ reading started
        → s.now ≤ started + latency
        → Inv config latency (
            set s i (
              answered config latency i s.now
                (s.replicas i).leads
                started
                (after_get (s.replicas i).elector started micro s.server.stored)))
    read-Inv s i started micro v e lag =
        let h = v.replicas i in
        let (same, obs, ph) =
          get_answer i s.now started micro s.server (s.replicas i).elector s.server.stored h.same
            (subst (PhaseOk config latency i s.now s.server) e h.phase) lag v.server.stamped
            v.server.stored h.observed in
        set-Inv config latency s i _ v (
          answered-ReplicaOk i s.now started s.server (s.replicas i).leads _ _ same obs ph
            (subst (LeadOk config latency i s.now s.server (s.replicas i).leads) e h.lead))
