-- ===== src/Quiesce.antt =====
-- state_transfer/quiesce.go: scaling the workloads of a namespace down and up again. Each kind has
-- a client and a loop; what a round does with one object is a `Step`. A nil map of annotations
-- reads and writes as an empty one, since every function makes the map before it writes.
pub mod RoundTrip
pub mod Namespace
pub mod Others
pub mod Pods
pub mod Applications
mod Tests
use crane_lib.Base.{ℕ, String, Bool, true, false, Option, none, some, List, [], ◌∷◌, eqb, ltb}
use crane_lib.Base.{Result, ok, err, panic, ◌==◌, string_eq, if◌then◌else◌}
use crane_lib.Base.Dict
use crane_lib.Base.Dict.{Dict}
use crane_lib.Base.Int.{ℤ, pos, is_zero, wrap_int32}
use crane_lib.Strconv.{format_int, atoi}
use crane_lib.Cluster.{NamespacedName, Step, skip, write, stop, crash}

abbrev pub node_selector_annotation : String
node_selector_annotation = "migration.openshift.io/preQuiesceNodeSelector"

abbrev pub quiesce_node_selector : String
quiesce_node_selector = "migration.openshift.io/quiesceDaemonSet"

abbrev pub replicas_annotation : String
replicas_annotation = "migration.openshift.io/preQuiesceReplicas"

abbrev pub suspend_annotation : String
suspend_annotation = "migration.openshift.io/preQuiesceSuspend"

-- `Spec.Replicas` is a number.
pub record DeploymentConfig : Type 0 where
  pub key : NamespacedName
  pub annotations : Dict String String
  pub replicas : ℤ

-- A Deployment, StatefulSet, ReplicaSet or Job: `replicas` is the pointer `Spec.Replicas`, for a
-- Job `Spec.Parallelism`, and `none` is nil.
pub record Scaled : Type 0 where
  pub key : NamespacedName
  pub annotations : Dict String String
  pub owner_references : ℕ
  pub replicas : Option ℤ

pub record DaemonSet : Type 0 where
  pub key : NamespacedName
  pub annotations : Dict String String
  pub node_selector : Dict String String

pub record CronJob : Type 0 where
  pub key : NamespacedName
  pub annotations : Dict String String
  pub suspend : Option Bool

unfoldable pub quiesce_deployment_config : DeploymentConfig → Step DeploymentConfig
quiesce_deployment_config dc =
    if is_zero dc.replicas
    then skip
    else write (record dc {
      annotations = Dict.insert replicas_annotation (format_int dc.replicas) dc.annotations;
      replicas = pos 0;
    })

-- The round behind Atoi; only a replica count of 0 is changed.
restore_deployment_config : DeploymentConfig → Result ℤ → Step DeploymentConfig
restore_deployment_config dc (ok number) = write (record dc {
  annotations = Dict.erase replicas_annotation dc.annotations;
  replicas = if is_zero dc.replicas then wrap_int32 number else dc.replicas;
})
restore_deployment_config dc (err e) = stop e
restore_deployment_config dc panic = crash

unfoldable pub unquiesce_deployment_config : DeploymentConfig → Step DeploymentConfig
unfolding restore_deployment_config
unquiesce_deployment_config dc = elim (Dict.lookup replicas_annotation dc.annotations) [
  | none ↦ skip
  | some replicas ↦ restore_deployment_config dc (atoi replicas)
]

-- The object with its count written down and set to 0.
abbrev pub scaled_down : Scaled → ℤ → Scaled
scaled_down x n = record x {
  annotations = Dict.insert replicas_annotation (format_int n) x.annotations;
  replicas = some (pos 0);
}

unfoldable pub scale_down : Scaled → Option ℤ → Step Scaled
scale_down x none = crash
scale_down x (some n) = if is_zero n then skip else write (scaled_down x n)

unfoldable pub quiesce_deployment : Scaled → Step Scaled
quiesce_deployment x = scale_down x x.replicas

unfoldable pub quiesce_stateful_set : Scaled → Step Scaled
quiesce_stateful_set x = scale_down x x.replicas

unfoldable pub quiesce_replica_set : Scaled → Step Scaled
quiesce_replica_set x = if ltb 0 x.owner_references then skip else scale_down x x.replicas

-- `job.Spec.Parallelism == &zero` compares the pointer of a listed object with that of a local
-- variable, which is false for every object.
unfoldable pub quiesce_job : Scaled → Step Scaled
quiesce_job x = elim x.replicas [ none ↦ crash | some n ↦ write (scaled_down x n) ]

-- The rounds of the four `unQuiesce…` loops behind the look at the annotation.
unfoldable pub scale_up : Scaled → Option ℤ → Result ℤ → Step Scaled
scale_up x none (ok number) = crash
scale_up x (some n) (ok number) = write (record x {
  annotations = Dict.erase replicas_annotation x.annotations;
  replicas = some (if is_zero n then wrap_int32 number else n);
})
scale_up x r (err e) = stop e
scale_up x r panic = crash

unfoldable pub restore : Scaled → Step Scaled
restore x = elim (Dict.lookup replicas_annotation x.annotations) [
  | none ↦ skip
  | some replicas ↦ scale_up x x.replicas (atoi replicas)
]

unfoldable pub unquiesce_deployment : Scaled → Step Scaled
unquiesce_deployment x = restore x

unfoldable pub unquiesce_stateful_set : Scaled → Step Scaled
unquiesce_stateful_set x = restore x

unfoldable pub unquiesce_replica_set : Scaled → Step Scaled
unquiesce_replica_set x = if ltb 0 x.owner_references then skip else restore x

unfoldable pub unquiesce_job : Scaled → Step Scaled
unquiesce_job x = restore x

-- `r.Spec.Suspend == pointer.BoolPtr(true)` compares with a fresh pointer, which is false for every
-- object.
unfoldable pub quiesce_cron_job : CronJob → Step CronJob
quiesce_cron_job r = write (record r {
  annotations = Dict.insert suspend_annotation "true" r.annotations;
  suspend = some true;
})

unfoldable pub unquiesce_cron_job : CronJob → Step CronJob
unquiesce_cron_job r = elim (Dict.lookup suspend_annotation r.annotations) [
  | none ↦ skip
  | some _ ↦
      write (record r {
        annotations = Dict.erase suspend_annotation r.annotations;
        suspend = some false;
      })
]

mark_daemon_set : DaemonSet → Result String → Step DaemonSet
mark_daemon_set x (ok selector) = write (record x {
  annotations = Dict.insert node_selector_annotation selector x.annotations;
  node_selector = Dict.insert quiesce_node_selector "true" x.node_selector;
})
mark_daemon_set x (err e) = stop e
mark_daemon_set x panic = crash

restore_daemon_set : DaemonSet → Result (Dict String String) → Step DaemonSet
restore_daemon_set x (ok selector) = elim (Dict.lookup quiesce_node_selector x.node_selector) [
  | none ↦ skip
  | some _ ↦ write (record x {
    annotations = Dict.erase node_selector_annotation x.annotations;
    node_selector = selector;
  })
]
restore_daemon_set x (err e) = stop e
restore_daemon_set x panic = crash

-- `marshal` is json.Marshal of a map of strings.
unfoldable pub quiesce_daemon_set :
    (marshal : Dict String String → Result String) → DaemonSet → Step DaemonSet
unfolding mark_daemon_set
quiesce_daemon_set marshal x = elim (Dict.lookup quiesce_node_selector x.node_selector) [
  | some _ ↦ skip
  | none ↦ mark_daemon_set x (marshal x.node_selector)
]

-- `unmarshal` is json.Unmarshal into such a map.
unfoldable pub unquiesce_daemon_set :
    (unmarshal : String → Result (Dict String String)) → DaemonSet → Step DaemonSet
unfolding restore_daemon_set
unquiesce_daemon_set unmarshal x = elim (Dict.lookup node_selector_annotation x.annotations) [
  | none ↦ skip
  | some selector ↦ restore_daemon_set x (unmarshal selector)
]
