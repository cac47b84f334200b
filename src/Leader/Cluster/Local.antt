-- ===== src/Leader/Cluster/Local.antt =====
-- crates/koprs/src/leader.rs: the steps that leave the server alone keep the invariant.
use koprs.Prelude.{
  ℕ, ◌+◌, ◌≤◌, ◌<◌, ◌≡◌, ◌≢◌, refl, subst, inl, inr, true, Option, none, some, arith, ◌==◌,
  Bool-cases,
}
use koprs.Leader.Config.{LeaderElectionConfig}
use koprs.Leader.Elector.Attempt.{finished, create, replace, opt_eq}
use koprs.Leader.Cluster.{
  Phase, resting, reading, writing, Replica, Server, Cluster, update, set, due,
}
use koprs.Leader.Cluster.Invariant.{PhaseOk, LeadOk, ReplicaOk, Inv}

-- A property of every entry after one entry was written.
pub update_all {ℓ κ} :
    {A : Type ℓ} (P : ℕ → A → Type κ) (f : ℕ → A) (i : ℕ) (a : A)
    → P i a
    → ((j : ℕ) → j ≢ i → P j (f j))
    → (j : ℕ) → P j (update f i a j)
update_all P f i a here there j = elim (Bool-cases (i == j)) [
  | inl e ↦ rw e (subst (λ k. P k a) (ground arith) here)
  | inr e ↦ rw e (there j (ground arith))
]

pub opt_eq-eq : (a b : Option ℕ) → opt_eq a b ≡ true → a ≡ b
opt_eq-eq none none h = refl
opt_eq-eq (some a) (some b) h = ground arith
opt_eq-eq none (some b) h = cc
opt_eq-eq (some a) none h = cc

pub none-some : {A : Type 0} {a : A} → none ≡ some a → ⊥
none-some h = cc

module _ (config : ℕ → LeaderElectionConfig) (latency : ℕ) where
  pub set-Inv :
      (s : Cluster) (i : ℕ) (r : Replica)
      → Inv config latency s
      → ReplicaOk config latency i s.now s.server r
      → Inv config latency (set s i r)
  set-Inv s i r v h = record {
    server = v.server;
    replicas =
        update_all (λ j. ReplicaOk config latency j s.now s.server) s.replicas i r h
          (λ j _. v.replicas j);
  }

  -- Time.
  later-PhaseOk :
      (i now t : ℕ) (sv : Server) (p : Phase)
      → now ≤ t
      → PhaseOk config latency i now sv p
      → PhaseOk config latency i t sv p
  later-PhaseOk i now t sv (resting w) le h = tt
  later-PhaseOk i now t sv (reading st) le h = omega arith
  later-PhaseOk i now t sv (writing st (finished a)) le h = omega arith
  later-PhaseOk i now t sv (writing st (create l)) le h = (omega arith, h.1)
  later-PhaseOk i now t sv (writing st (replace l)) le h = (omega arith, h.1, h.2)

  later-LeadOk :
      (i now t : ℕ) (sv : Server) (leads : Option ℕ) (p : Phase)
      → now ≤ t
      → ((q : ℕ) → leads ≡ some q → t ≤ due config latency i q p)
      → LeadOk config latency i now sv leads p
      → LeadOk config latency i t sv leads p
  later-LeadOk i now t sv none p le urgent h = tt
  later-LeadOk i now t sv (some q) (resting w) le urgent (o, st, qs, (a, b)) =
      (o, st, qs, (urgent q refl, b))
  later-LeadOk i now t sv (some q) (reading w) le urgent (o, st, qs, (a, b)) =
      (o, st, qs, (a, urgent q refl))
  later-LeadOk i now t sv (some q) (writing w x) le urgent (o, st, qs, (a, b)) =
      (o, st, qs, (a, urgent q refl))

  pub tick-Inv :
      (s : Cluster) (t : ℕ)
      → Inv config latency s
      → s.now ≤ t
      → ((i q : ℕ)
          → (s.replicas i).leads ≡ some q
          → t ≤ due config latency i q (s.replicas i).phase)
      → Inv config latency (record s { now = t })
  tick-Inv s t v le urgent = record {
    server = record { stamped = omega (arith, v.server.stamped); stored = v.server.stored };
    replicas = λ i.
        let h = v.replicas i in
        record {
          same = h.same;
          observed = h.observed;
          phase = later-PhaseOk i s.now t s.server (s.replicas i).phase le h.phase;
          lead =
              later-LeadOk i s.now t s.server (s.replicas i).leads (s.replicas i).phase le
                (urgent i) h.lead;
        };
  }

  begin-LeadOk :
      (i now wake : ℕ) (sv : Server) (leads : Option ℕ)
      → sv.stamp ≤ now
      → ((q : ℕ) → leads ≡ some q → now < q + (config i).renew_deadline)
      → LeadOk config latency i now sv leads (resting wake)
      → LeadOk config latency i now sv leads (reading now)
  begin-LeadOk i now wake sv none st early h = tt
  begin-LeadOk i now wake sv (some q) st early (o, p, qs, (a, b)) =
      (o, p, qs, (omega arith, omega (arith, early q refl)))

  pub begin-Inv :
      (s : Cluster) (i wake : ℕ)
      → Inv config latency s
      → (s.replicas i).phase ≡ resting wake
      → ((q : ℕ) → (s.replicas i).leads ≡ some q → s.now < q + (config i).renew_deadline)
      → Inv config latency (set s i (record (s.replicas i) { phase = reading s.now }))
  begin-Inv s i wake v e early =
      let h = v.replicas i in
      set-Inv s i _ v (record {
        same = h.same;
        observed = h.observed;
        phase = omega arith;
        lead =
            begin-LeadOk i s.now wake s.server (s.replicas i).leads v.server.stamped early
              (subst (LeadOk config latency i s.now s.server (s.replicas i).leads) e h.lead);
      })

  fail-LeadOk :
      (i now : ℕ) (sv : Server) (leads : Option ℕ) (p : Phase)
      → ((wake : ℕ) → p ≢ resting wake)
      → LeadOk config latency i now sv leads p
      → LeadOk config latency i now sv leads (resting (now + (config i).retry_period))
  fail-LeadOk i now sv none p busy h = tt
  fail-LeadOk i now sv (some q) (resting w) busy h = absurd (busy w refl)
  fail-LeadOk i now sv (some q) (reading w) busy (o, st, qs, (a, b)) =
      (o, st, qs, (omega arith, omega arith))
  fail-LeadOk i now sv (some q) (writing w x) busy (o, st, qs, (a, b)) =
      (o, st, qs, (omega arith, omega arith))

  pub fail-Inv :
      (s : Cluster) (i : ℕ)
      → Inv config latency s
      → ((wake : ℕ) → (s.replicas i).phase ≢ resting wake)
      → Inv config latency
          (set s i (record (s.replicas i) { phase = resting (s.now + (config i).retry_period) }))
  fail-Inv s i v busy =
      let h = v.replicas i in
      set-Inv s i _ v (record {
        same = h.same;
        observed = h.observed;
        phase = tt;
        lead = fail-LeadOk i s.now s.server (s.replicas i).leads (s.replicas i).phase busy h.lead;
      })

  pub stop-Inv :
      (s : Cluster) (i wake : ℕ)
      → Inv config latency s
      → Inv config latency (set s i (record (s.replicas i) { leads = none; phase = resting wake }))
  stop-Inv s i wake v =
      let h = v.replicas i in
      set-Inv s i _ v (record { same = h.same; observed = h.observed; phase = tt; lead = tt })
