-- ===== src/Operators.antt =====
-- examples/configmapsync, examples/multicontroller and examples/apiconfigsync: what the reconcilers
-- of the operators call, and the object of a child.
pub mod Leads
pub mod Examples
pub mod Model
pub mod Leaks
pub mod Laws
pub mod Steps
pub mod Placed
pub mod ConfigMapSync
pub mod SecretSync
pub mod ServiceAccountSync
use Prim.Native.String
use koprs.Prelude.{String, Bool, Option, none, some, List, [], ◌∷◌}
use koprs.Prelude.Tasks.{Task}
use koprs.Error.{KubeError}
use koprs.Kube.{KubeResource, ApiServer, Target}
use koprs.Finalizers.{Patch}
use koprs.Resources.Metadata.{MetadataPatch}
use koprs.Status.{KoprsCondition}
use koprs.Status.Patches.{StatusPatch}
use koprs.Events.{Event, Process}

-- The calls of a reconciler for resources `CR` with children `C` and a status `S`.
pub record Client (W CR C S : Type 0) : Type 0 where
  pub children : ApiServer W C
  pub patch_finalizers : Target → String → Patch → Task W KubeError CR
  pub patch_metadata : Target → String → MetadataPatch → Task W KubeError CR
  pub patch_status : Target → String → StatusPatch S → String → Task W KubeError CR
  pub create_event : Target → Event → Task W KubeError (Unit {0})
  pub process : Process W
  pub time_text : W → String

-- `ConfigMapSyncStatus`, `SecretSyncStatus`, `ServiceAccountSyncStatus` and `ApiConfigSyncStatus`
-- have the same fields.
pub record SyncStatus : Type 0 where
  pub ready : Bool
  pub message : String
  pub conditions : List KoprsCondition

-- The conditions of the status, if there is one.
abbrev pub conditions_of : Option SyncStatus → List KoprsCondition
conditions_of none = []
conditions_of (some s) = s.conditions

-- `format!`, of its pieces.
abbrev pub format : List String → String
format [] = ""
format (s ∷ ss) = String.◌++◌ s (format ss)
