-- ===== src/Leader/Lease.antt =====
-- crates/koprs/src/leader.rs: the `Lease` object (k8s_openapi), with the fields that the source
-- reads or writes, and `build_lease`. A resource version is an opaque token that is only compared
-- for equality: a number here. A `MicroTime` is a number that is only copied.
use koprs.Prelude.{ℕ, String, Option, none, some, ℤ, pos}
use koprs.Leader.Config.{LeaderElectionConfig}

abbrev pub ResourceVersion : Type 0
ResourceVersion = ℕ

abbrev pub MicroTime : Type 0
MicroTime = ℕ

pub record LeaseMeta : Type 0 where
  pub name : Option String
  pub namespace : Option String
  pub resource_version : Option ResourceVersion

pub record LeaseSpec : Type 0 where
  pub holder_identity : Option String
  pub lease_duration_seconds : Option ℤ
  pub acquire_time : Option MicroTime
  pub renew_time : Option MicroTime
  pub lease_transitions : Option ℤ

pub record Lease : Type 0 where
  pub metadata : LeaseMeta
  pub spec : Option LeaseSpec

unfoldable pub build_lease :
    LeaderElectionConfig
    → Option String
    → ℕ
    → MicroTime
    → MicroTime
    → Option ResourceVersion
    → Option ℤ
    → Lease
build_lease c holder secs acquire_time renew_time rv transitions = record {
  metadata = record { name = some c.name; namespace = some c.namespace; resource_version = rv };
  spec = some (record {
    holder_identity = holder;
    lease_duration_seconds = some (pos secs);
    acquire_time = some acquire_time;
    renew_time = some renew_time;
    lease_transitions = transitions;
  });
}

-- Fields of the spec, when there is a spec: `spec.and_then(|s| s.field)`.
abbrev pub and_then_spec {ℓ} : {A : Type ℓ} → (LeaseSpec → Option A) → Lease → Option A
and_then_spec f l = elim l.spec [ none ↦ none | some s ↦ f s ]
