-- ===== src/Leader/Cluster/Exclusion.antt =====
-- crates/koprs/src/leader.rs: there are never two leaders.
use koprs.Prelude.{ℕ, ◌≡◌, sym, subst, ◌∙◌, some}
use koprs.Leader.Config.{LeaderElectionConfig}
use koprs.Leader.Cluster.{
  Cluster, Step, tick, begin, read, fail, stop, accept, accept_unseen, Reach, here, next, start,
  set,
}
use koprs.Leader.Cluster.Invariant.{IsSafe, LeadOk, Inv, start-Inv}
use koprs.Leader.Cluster.Local.{tick-Inv, begin-Inv, fail-Inv, stop-Inv}
use koprs.Leader.Cluster.Reading.{read-Inv}
use koprs.Leader.Cluster.Writing.{accept-Inv, accept_unseen-Inv}

module _ (config : ℕ → LeaderElectionConfig) (latency : ℕ) (safe : IsSafe config latency) where
  Step-Inv : {s u : Cluster} → Step config latency s u → Inv config latency s → Inv config latency u
  Step-Inv {s} (tick t le urgent) v = tick-Inv config latency s t v le urgent
  Step-Inv {s} (begin i wake e le early) v = begin-Inv config latency s i wake v e early
  Step-Inv {s} (read i started micro e lag) v =
      read-Inv config latency safe s i started micro v e lag
  Step-Inv {s} (fail i r e busy) v =
      subst (λ x. Inv config latency (set s i x)) (sym e) (fail-Inv config latency s i v busy)
  Step-Inv {s} (stop i wake) v = stop-Inv config latency s i wake v
  Step-Inv {s} (accept i started ack p l e a le b) v =
      accept-Inv config latency safe s i started ack p l v e a le b
  Step-Inv {s} (accept_unseen i started wake p l e a le b) v =
      accept_unseen-Inv config latency safe s i started wake p l v e a le b

  Reach-Inv :
      {s u : Cluster} → Inv config latency s → Reach config latency s u → Inv config latency u
  Reach-Inv v here = v
  Reach-Inv v (next r st) = Step-Inv st (Reach-Inv v r)

  -- Replicas with accepted settings and distinct identities, whose `renew_deadline + retry_period`
  -- and the latency of a GET stay below the duration that they write, never lead at the same time:
  -- in no state that is reached from a start without a lease, by any interleaving of their attempts,
  -- of time, errors and lost answers.
  pub mutual_exclusion :
      (t : ℕ) (s : Cluster)
      → Reach config latency (start config latency t) s
      → (i j q r : ℕ) → (s.replicas i).leads ≡ some q
      → (s.replicas j).leads ≡ some r
      → i ≡ j
  mutual_exclusion t s reach i j q r ei ej =
      let v = Reach-Inv (start-Inv config latency t) reach in
      let owner = λ (k x : ℕ) (e : (s.replicas k).leads ≡ some x).
        (subst (λ o. LeadOk config latency k s.now s.server o (s.replicas k).phase) e
          (v.replicas k).lead).0 in
      sym (owner i q ei) ∙ owner j r ej
