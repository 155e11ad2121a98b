-- ===== src/Quiesce/Others.antt =====
-- DeploymentConfigs, DaemonSets and CronJobs: what unquiescing gives back, and the two kinds whose
-- guard compares pointers.
use crane_lib.Base.{String, none, some, ◌≡◌, refl, ok, arith, string_eq}
use crane_lib.Base.{false, Result}
use crane_lib.Base.Dict
use crane_lib.Base.Dict.{Dict}
use crane_lib.Base.Int.{ℤ, pos, IsInt32, wrap_int32_of_IsInt32}
use crane_lib.Strconv.{format_int, atoi}
use crane_lib.Strconv.RoundTrip.{atoi-format_int}
use crane_lib.Cluster.{skip, write, outcome}
use crane_lib.Quiesce.{DeploymentConfig, DaemonSet, CronJob, Scaled, scaled_down}
use crane_lib.Quiesce.{replicas_annotation, suspend_annotation, node_selector_annotation}
use crane_lib.Quiesce.{
  quiesce_node_selector, restore_deployment_config, restore, scale_up, scale_down,
}
use crane_lib.Quiesce.{quiesce_deployment_config, unquiesce_deployment_config}
use crane_lib.Quiesce.{quiesce_daemon_set, unquiesce_daemon_set}
use crane_lib.Quiesce.{quiesce_cron_job, unquiesce_cron_job, quiesce_job, unquiesce_job}
use crane_lib.Quiesce.{quiesce_deployment, quiesce_stateful_set, quiesce_replica_set}

unquiesce_deployment_config-marked :
    (x : DeploymentConfig) (text : String)
    → Dict.lookup replicas_annotation x.annotations ≡ some text
    → unquiesce_deployment_config x ≡ restore_deployment_config x (atoi text)
unfolding unquiesce_deployment_config
unquiesce_deployment_config-marked x text h = rw (h, unquiesce_deployment_config)

abbrev emptied : DeploymentConfig → DeploymentConfig
emptied x = record x {
  annotations = Dict.insert replicas_annotation (format_int x.replicas) x.annotations;
  replicas = pos 0;
}

unquiesce_deployment_config-emptied :
    (x : DeploymentConfig)
    → IsInt32 x.replicas
    → Dict.lookup replicas_annotation x.annotations ≡ none
    → unquiesce_deployment_config (emptied x) ≡ write x
unfolding restore_deployment_config
unquiesce_deployment_config-emptied x fits unmarked =
    rw
      (
        unquiesce_deployment_config-marked (emptied x) (format_int x.replicas)
            (Dict.lookup-insert_self _ _ _),
        atoi-format_int x.replicas fits,
      )
      (ground (
        arith,
        Dict.erase-insert replicas_annotation (format_int x.replicas) x.annotations unmarked,
        wrap_int32_of_IsInt32 x.replicas fits,
      ))

unquiesce_deployment_config-unmarked :
    (x : DeploymentConfig)
    → Dict.lookup replicas_annotation x.annotations ≡ none
    → unquiesce_deployment_config x ≡ skip
unfolding unquiesce_deployment_config
unquiesce_deployment_config-unmarked x unmarked = rw (unmarked, unquiesce_deployment_config)

-- A DeploymentConfig with a count of 32 bits that is not marked as quiesced gets back its count and
-- its annotations.
pub unquiesce-quiesce_deployment_config :
    (x : DeploymentConfig)
    → IsInt32 x.replicas
    → Dict.lookup replicas_annotation x.annotations ≡ none
    → let y = outcome (quiesce_deployment_config x) x in
      outcome (unquiesce_deployment_config y) y ≡ x
unfolding quiesce_deployment_config
unquiesce-quiesce_deployment_config x fits unmarked = ground (
  arith,
  unquiesce_deployment_config-emptied x fits unmarked,
  unquiesce_deployment_config-unmarked x unmarked,
)

abbrev marked : DaemonSet → String → DaemonSet
marked x text = record x {
  annotations = Dict.insert node_selector_annotation text x.annotations;
  node_selector = Dict.insert quiesce_node_selector "true" x.node_selector;
}

module _ (unmarshal : String → Result (Dict String String)) (x : DaemonSet) (text : String) where
  quiesce_daemon_set-free :
      (marshal : Dict String String → Result String)
      → Dict.lookup quiesce_node_selector x.node_selector ≡ none
      → marshal x.node_selector ≡ ok text
      → quiesce_daemon_set marshal x ≡ write (marked x text)
  unfolding quiesce_daemon_set
  quiesce_daemon_set-free marshal free written = ground arith

  unquiesce_daemon_set-marked :
      Dict.lookup node_selector_annotation x.annotations ≡ none
      → unmarshal text ≡ ok x.node_selector
      → unquiesce_daemon_set unmarshal (marked x text) ≡ write x
  unfolding unquiesce_daemon_set
  unquiesce_daemon_set-marked unmarked back = ground (
    arith,
    Dict.lookup-insert_self node_selector_annotation text x.annotations,
    Dict.lookup-insert_self quiesce_node_selector "true" x.node_selector,
    Dict.erase-insert node_selector_annotation text x.annotations unmarked,
  )

-- A DaemonSet that is not marked as quiesced gets the quiescing key in its selector by quiescing, and
-- its own selector back by unquiescing, if the selector is written as JSON and reads back as it was.
pub unquiesce-quiesce_daemon_set :
    (marshal : Dict String String → Result String)
    (unmarshal : String → Result (Dict String String)) (x : DaemonSet) (text : String)
    → Dict.lookup quiesce_node_selector x.node_selector ≡ none
    → Dict.lookup node_selector_annotation x.annotations ≡ none
    → marshal x.node_selector ≡ ok text
    → unmarshal text ≡ ok x.node_selector
    → let y = outcome (quiesce_daemon_set marshal x) x in
      (Dict.lookup quiesce_node_selector y.node_selector ≡ some "true")
      × (outcome (unquiesce_daemon_set unmarshal y) y ≡ x)
unquiesce-quiesce_daemon_set marshal unmarshal x text free unmarked written back =
    rw (quiesce_daemon_set-free unmarshal x text marshal free written) (
      Dict.lookup-insert_self quiesce_node_selector "true" x.node_selector,
      rw (unquiesce_daemon_set-marked unmarshal x text unmarked back),
    )

-- A CronJob that is not marked as quiesced runs after quiescing and unquiescing, whether or not it
-- was suspended at the start.
pub unquiesce-quiesce_cron_job :
    (x : CronJob)
    → Dict.lookup suspend_annotation x.annotations ≡ none
    → let y = outcome (quiesce_cron_job x) x in
      outcome (unquiesce_cron_job y) y ≡ record x { suspend = some false }
unfolding quiesce_cron_job unquiesce_cron_job
unquiesce-quiesce_cron_job x unmarked = ground (
  arith,
  Dict.lookup-insert_self suspend_annotation "true" x.annotations,
  Dict.erase-insert suspend_annotation "true" x.annotations unmarked,
)

quiesce_job-some :
    (x : Scaled) (n : ℤ) → x.replicas ≡ some n → quiesce_job x ≡ write (scaled_down x n)
unfolding quiesce_job
quiesce_job-some x n h = ground arith

unquiesce_job-zero :
    (x : Scaled)
    → Dict.lookup replicas_annotation x.annotations ≡ some (format_int (pos 0))
    → x.replicas ≡ some (pos 0)
    → (outcome (unquiesce_job x) x).replicas ≡ some (pos 0)
unfolding unquiesce_job restore scale_up
unquiesce_job-zero x marked zeroed =
    ground
      (arith, atoi-format_int (pos 0) (omega arith), wrap_int32_of_IsInt32 (pos 0) (omega arith))

-- A Job with a parallelism that is quiesced twice has lost it: unquiescing leaves it at 0.
pub unquiesce-quiesce_job_twice :
    (x : Scaled) (n : ℤ)
    → x.replicas ≡ some n
    → let y = outcome (quiesce_job x) x in
      let z = outcome (quiesce_job y) y in (outcome (unquiesce_job z) z).replicas ≡ some (pos 0)
unquiesce-quiesce_job_twice x n counted = rw (quiesce_job-some x n counted) (
    rw (quiesce_job-some (scaled_down x n) (pos 0) refl)
      (unquiesce_job-zero _ (Dict.lookup-insert_self _ _ _) refl))

-- Quiescing a Deployment, a StatefulSet or a ReplicaSet that has a count again does nothing, so the
-- count stays written down.
pub quiesce_twice :
    (x : Scaled) (n : ℤ)
    → x.replicas ≡ some n
    → let y = outcome (quiesce_deployment x) x in
      let z = outcome (quiesce_stateful_set x) x in
      let w = outcome (quiesce_replica_set x) x in
      (quiesce_deployment y ≡ skip)
      × (quiesce_stateful_set z ≡ skip)
      × (quiesce_replica_set w ≡ skip)
unfolding quiesce_deployment quiesce_stateful_set quiesce_replica_set scale_down
quiesce_twice x n counted = ground arith
