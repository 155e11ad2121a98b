-- ===== src/Kubernetes.antt =====
-- transform/kubernetes/kubernetes.go: the plugin that every transformation runs, by what it works
-- with, the kinds of resources, and the getters of unstructured objects and the decoders, which
-- are the libraries'.
pub mod Options
pub mod WhiteOuts
pub mod Strip
pub mod Annotations
pub mod Jobs
pub mod Services
pub mod NodePorts
pub mod Volumes
pub mod Transforms
pub mod Plugin
mod Tests
use Prim.Native.Char.{Char, code}
use Prim.Native.String.{◌++◌ as ◌<>◌}
use crane_lib.Base.{
  ℕ, String, Bool, true, false, ◌&&◌, Option, none, some, List, [], ◌∷◌, Result, ok, err, not, eqb,
  leb, ◌↔◌,
}
use crane_lib.Base.{string_eq, ◌==◌, string_dec, Eq, ◌≡◌, refl, ap, if◌then◌else◌}
use crane_lib.Base.Dict.{Dict}
use crane_lib.Json.{Value, object, boolean, Members, Elements, get}
use crane_lib.Json.Patch.{Operation}
use crane_lib.Transform.Util.{Volume}

pub record GroupKind : Type 0 where
  pub group : String
  pub kind : String

-- Go's `==` of the two structs
unfoldable pub same_group_kind : GroupKind → GroupKind → Bool
same_group_kind a b = (a.group == b.group) && (a.kind == b.kind)

abbrev pub config_map_gk : GroupKind
config_map_gk = record { group = ""; kind = "ConfigMap" }

abbrev pub cron_job_gk : GroupKind
cron_job_gk = record { group = "batch"; kind = "CronJob" }

abbrev pub daemon_set_gk : GroupKind
daemon_set_gk = record { group = "apps"; kind = "DaemonSet" }

abbrev pub deployment_gk : GroupKind
deployment_gk = record { group = "apps"; kind = "Deployment" }

abbrev pub extensions_group : String
extensions_group = "extensions"

abbrev pub job_gk : GroupKind
job_gk = record { group = "batch"; kind = "Job" }

abbrev pub pvc_gk : GroupKind
pvc_gk = record { group = ""; kind = "PersistentVolumeClaim" }

abbrev pub pod_gk : GroupKind
pod_gk = record { group = ""; kind = "Pod" }

abbrev pub replica_set_gk : GroupKind
replica_set_gk = record { group = "apps"; kind = "ReplicaSet" }

abbrev pub replication_controller_gk : GroupKind
replication_controller_gk = record { group = ""; kind = "ReplicationController" }

abbrev pub role_binding_gk : GroupKind
role_binding_gk = record { group = "rbac.authorization.k8s.io"; kind = "RoleBinding" }

abbrev pub service_gk : GroupKind
service_gk = record { group = ""; kind = "Service" }

abbrev pub secret_gk : GroupKind
secret_gk = record { group = ""; kind = "Secret" }

abbrev pub service_account_gk : GroupKind
service_account_gk = record { group = ""; kind = "ServiceAccount" }

abbrev pub stateful_set_gk : GroupKind
stateful_set_gk = record { group = "apps"; kind = "StatefulSet" }

-- The kinds that are never carried over.
abbrev pub gks_to_whiteout : List GroupKind
gks_to_whiteout =
    record { group = ""; kind = "Endpoints" }
    ∷ record { group = "discovery.k8s.io"; kind = "EndpointSlice" }
    ∷ record { group = ""; kind = "Event" }
    ∷ record { group = "events.k8s.io"; kind = "Event" }
    ∷ pvc_gk
    ∷ record { group = "operators.coreos.com"; kind = "Subscription" }
    ∷ record { group = "operators.coreos.com"; kind = "InstallPlan" }
    ∷ record { group = "operators.coreos.com"; kind = "ClusterServiceVersion" }
    ∷ record { group = "operators.coreos.com"; kind = "CatalogSource" }
    ∷ record { group = "operators.coreos.com"; kind = "OperatorGroup" }
    ∷ record { group = "operators.coreos.com"; kind = "OperatorCondition" }
    ∷ []

-- What `unstructured.NestedString` and its kin return: a value, that there is none, or an error.
pub data Nested {ℓ} (A : Type ℓ) : Type ℓ where
  present : A → Nested A
  absent : Nested A
  mistyped : String → Nested A

-- The fields of the typed objects that the plugin reads. The template of a ReplicationController
-- is a pointer.
pub record PodSpec : Type 0 where
  pub volumes : List Volume
  pub images : List String
  pub init_images : List String

pub record Subject : Type 0 where
  pub kind : String
  pub namespace : String

pub record RoleBinding : Type 0 where
  pub namespace : String
  pub subjects : List Subject

pub record StatefulSet : Type 0 where
  pub template : PodSpec
  pub claim_templates : List String

-- The libraries: the getters of an unstructured object, which is its content, the typed objects
-- by `MarshalJSON` and `json.Unmarshal`, and `jsonpatch.DecodePatch`.
pub record Api : Type 0 where
  pub group_kind : Members → GroupKind
  pub name : Members → String
  pub annotations : Members → Dict String String
  pub owner_references : Members → ℕ
  pub nested_field : Members → List String → Nested Value
  pub nested_string : Members → List String → Nested String
  pub nested_bool : Members → List String → Nested Bool
  pub nested_map : Members → List String → Nested Members
  pub nested_slice : Members → List String → Nested Elements
  pub cron_job : Members → Result PodSpec
  pub pod : Members → Result PodSpec
  pub daemon_set : Members → Result PodSpec
  pub deployment : Members → Result PodSpec
  pub job : Members → Result PodSpec
  pub replication_controller : Members → Result (Option PodSpec)
  pub replica_set : Members → Result PodSpec
  pub role_binding : Members → Result RoleBinding
  pub stateful_set : Members → Result StatefulSet
  pub pod_template : Value → Result PodSpec
  pub unmarshal_map : String → Result Members
  pub decode_patch : String → Result (List Operation)

-- `fmt.Sprintf(opRemove, path)`
unfoldable pub op_remove : String → String
op_remove path = "[\n{\"op\": \"remove\", \"path\": \"" <> (path <> "\"}\n]")

-- `fmt.Sprintf(opReplace, path, value)`
unfoldable pub op_replace : String → String → String
op_replace path value =
    "[\n{\"op\": \"replace\", \"path\": \""
    <> (path <> ("\", \"value\": \"" <> (value <> "\"}\n]")))

-- A text that JSON writes as it is, in quotes.
abbrev pub plain : String → Bool
plain String.[] = true
plain (String.◌∷◌ c s) =
    not (eqb (code c) b'"') && not (eqb (code c) b'\\') && leb 32 (code c) && plain s

-- What the plugin relies on. A printed remove operation is read back, and the getters find what a
-- path through maps leads to.
abbrev pub DecodesRemove : Api → Type 0
DecodesRemove api =
    (path : String)
    → plain path ≡ true
    → api.decode_patch (op_remove path) ≡ ok (Operation.remove path ∷ [])

abbrev pub FieldReads : Api → Type 0
FieldReads api =
    (obj : Members) (path : List String) (v : Value)
    → (api.nested_field obj path ≡ present v) ↔ (get path (object obj) ≡ some v)

abbrev pub BoolReads : Api → Type 0
BoolReads api =
    (obj : Members) (path : List String) (b : Bool)
    → (api.nested_bool obj path ≡ present b) ↔ (get path (object obj) ≡ some (boolean b))
