-- ===== src/Events.antt =====
-- crates/koprs/src/events.rs: the event of a resource. The call that creates it, the clock, the
-- hexadecimal text of a number and the two environment variables are parameters.
use Prim.Native.String
use koprs.Prelude.{ℕ, ◌%◌, ◌^◌, String, Option, none, some, map_err}
use koprs.Prelude.Tasks.{Task}
use koprs.Error.{KubeError, KubeGenericError, kube}
use koprs.Kube.{ObjectMeta, KubeResource, Target, namespaced, default_meta}

pub data EventType : Type 0 where
  normal : EventType
  warning : EventType

unfoldable pub as_str : EventType → String
as_str normal = "Normal"
as_str warning = "Warning"

pub record ObjectReference : Type 0 where
  pub api_version : String
  pub kind : String
  pub name : Option String
  pub namespace : Option String
  pub uid : Option String
  pub resource_version : Option ℕ

pub record Event : Type 0 where
  pub metadata : ObjectMeta
  pub event_time : ℕ
  pub regarding : ObjectReference
  pub action : String
  pub reason : String
  pub note : String
  pub type_ : String
  pub reporting_controller : String
  pub reporting_instance : String

-- What the function reads of the process: the time in nanoseconds, `{:x}`, `POD_NAME` and
-- `HOSTNAME`.
pub record Process (W : Type 0) : Type 0 where
  pub now : W → ℕ
  pub hex : ℕ → String
  pub pod_name : Option String
  pub hostname : Option String

abbrev pub unwrap_or : Option String → String → String
unwrap_or none s = s
unwrap_or (some t) s = t

module _ {W T : Type 0} (k : KubeResource T) (process : Process W)
    (create : Target → Event → Task W KubeError (Unit {0})) where
  abbrev event_of : T → EventType → String → String → String → String → ℕ → Event
  event_of r event_type action reason note controller now =
      let m = k.meta r in
      record {
        metadata = record default_meta {
          name = some (
              String.◌++◌ (unwrap_or m.name "unknown")
                (String.◌++◌ "." (process.hex (now % 2 ^ 64))));
          namespace = some (unwrap_or m.namespace "default");
        };
        event_time = now;
        regarding = record {
          api_version = k.api_version;
          kind = k.kind;
          name = m.name;
          namespace = m.namespace;
          uid = m.uid;
          resource_version = m.resource_version;
        };
        action = action;
        reason = reason;
        note = note;
        type_ = as_str event_type;
        reporting_controller = controller;
        reporting_instance = unwrap_or process.pod_name (unwrap_or process.hostname "unknown");
      }

  unfoldable pub record_event :
      T → EventType → String → String → String → String → Task W KubeGenericError (Unit {0})
  unfolding as_str
  record_event r event_type action reason note controller w =
      let event = event_of r event_type action reason note controller (process.now w) in
      let answer = create (namespaced (unwrap_or (k.meta r).namespace "default")) event w in
      (map_err kube answer.0, answer.1)
