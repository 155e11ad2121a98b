-- ===== src/Quiesce/Applications.antt =====
-- `QuiesceApplications` and `UnQuiesceApplications`: the loops over the seven kinds, one behind
-- another, and the wait. Building the client from a `rest.Config` is left out: the clients are
-- arguments.
use crane_lib.Base.{String, ℕ, Option, some, ◌≡◌, Result, ok, err, panic, List, true, false, arith}
use crane_lib.Base.{All, contains, string_eq}
use crane_lib.Base.Dict.{Dict}
use crane_lib.Cluster.{Client, and_then, for_each}
use crane_lib.Quiesce.{DeploymentConfig, Scaled, DaemonSet, CronJob}
use crane_lib.Quiesce.{quiesce_deployment_config, unquiesce_deployment_config}
use crane_lib.Quiesce.{quiesce_deployment, unquiesce_deployment}
use crane_lib.Quiesce.{quiesce_stateful_set, unquiesce_stateful_set}
use crane_lib.Quiesce.{quiesce_replica_set, unquiesce_replica_set}
use crane_lib.Quiesce.{quiesce_daemon_set, unquiesce_daemon_set}
use crane_lib.Quiesce.{quiesce_cron_job, unquiesce_cron_job, quiesce_job, unquiesce_job}
use crane_lib.Quiesce.Pods.{IsFree, skipped_phases, ensure_quiesced_pods_terminated_sound}
use crane_lib.Quiesce.Pods.{Pod, wait_terminated, wait_terminated_sound}
use crane_lib.Quiesce.Pods.{ensure_quiesced_pods_terminated}

-- One client for each kind, over one cluster.
pub record Api (S : Type 0) : Type 0 where
  pub cron_jobs : Client S CronJob
  pub deployment_configs : Client S DeploymentConfig
  pub deployments : Client S Scaled
  pub stateful_sets : Client S Scaled
  pub replica_sets : Client S Scaled
  pub daemon_sets : Client S DaemonSet
  pub jobs : Client S Scaled
  pub pods : String → S → Result (List Pod)

module _ {S : Type 0} (api : Api S) (marshal : Dict String String → Result String)
    (unmarshal : String → Result (Dict String String)) (ns : String) where
  abbrev quiesce_cron_jobs : S → S × Result (Unit {0})
  quiesce_cron_jobs = for_each api.cron_jobs quiesce_cron_job ns

  abbrev quiesce_deployment_configs : S → S × Result (Unit {0})
  quiesce_deployment_configs = for_each api.deployment_configs quiesce_deployment_config ns

  abbrev quiesce_deployments : S → S × Result (Unit {0})
  quiesce_deployments = for_each api.deployments quiesce_deployment ns

  abbrev quiesce_stateful_sets : S → S × Result (Unit {0})
  quiesce_stateful_sets = for_each api.stateful_sets quiesce_stateful_set ns

  abbrev quiesce_replica_sets : S → S × Result (Unit {0})
  quiesce_replica_sets = for_each api.replica_sets quiesce_replica_set ns

  abbrev quiesce_daemon_sets : S → S × Result (Unit {0})
  quiesce_daemon_sets = for_each api.daemon_sets (quiesce_daemon_set marshal) ns

  abbrev quiesce_jobs : S → S × Result (Unit {0})
  quiesce_jobs = for_each api.jobs quiesce_job ns

  -- The seven calls of `QuiesceApplications` in front of the wait.
  quiesce_workloads : S → S × Result (Unit {0})
  quiesce_workloads s = and_then (quiesce_cron_jobs s) λ s.
      and_then (quiesce_deployment_configs s) λ s. and_then (quiesce_deployments s) λ s.
        and_then (quiesce_stateful_sets s)
          λ s. and_then (quiesce_replica_sets s) λ s. and_then (quiesce_daemon_sets s) quiesce_jobs

  -- `none` means that the rounds of the wait ran out.
  wait_behind : (S → S) → ℕ → S × Result (Unit {0}) → Option (S × Result (Unit {0}))
  wait_behind sleep rounds (s, ok _) = wait_terminated api.pods ns sleep rounds s
  wait_behind sleep rounds (s, err e) = some (s, err e)
  wait_behind sleep rounds (s, panic) = some (s, panic)

  unfoldable pub quiesce_applications : (S → S) → ℕ → S → Option (S × Result (Unit {0}))
  unfolding wait_behind quiesce_workloads
  quiesce_applications sleep rounds s = wait_behind sleep rounds (quiesce_workloads s)

  unfoldable pub unquiesce_applications : S → S × Result (Unit {0})
  unquiesce_applications s = and_then (for_each api.cron_jobs unquiesce_cron_job ns s) λ s.
      and_then (for_each api.deployment_configs unquiesce_deployment_config ns s) λ s.
        and_then (for_each api.deployments unquiesce_deployment ns s) λ s.
          and_then (for_each api.stateful_sets unquiesce_stateful_set ns s) λ s.
            and_then (for_each api.replica_sets unquiesce_replica_set ns s) λ s.
              and_then (for_each api.daemon_sets (unquiesce_daemon_set unmarshal) ns s)
                (for_each api.jobs unquiesce_job ns)

  wait_behind_sound :
      (sleep : S → S) (rounds : ℕ) (r : S × Result (Unit {0})) (t : S)
      → wait_behind sleep rounds r ≡ some (t, ok tt)
      → ensure_quiesced_pods_terminated api.pods ns t ≡ ok true
  unfolding wait_behind
  wait_behind_sound sleep rounds (s, ok _) t h =
      wait_terminated_sound api.pods ns sleep rounds s t h
  wait_behind_sound sleep rounds (s, err e) t h = absurd (ground arith)
  wait_behind_sound sleep rounds (s, panic) t h = absurd (ground arith)

  -- When `QuiesceApplications` returns without an error, every pod that the namespace then lists is
  -- in the phase Succeeded, Failed or Unknown, or has no owner that is a ReplicationController,
  -- StatefulSet, ReplicaSet, DaemonSet or Job.
  pub quiesce_applications_sound :
      (sleep : S → S) (rounds : ℕ) (s t : S)
      → quiesce_applications sleep rounds s ≡ some (t, ok tt)
      → (ps : List Pod) × (api.pods ns t ≡ ok ps)
        × All (λ p. contains skipped_phases p.phase ≡ false → IsFree p) ps
  unfolding quiesce_applications
  quiesce_applications_sound sleep rounds s t h =
      ensure_quiesced_pods_terminated_sound api.pods ns t
        (wait_behind_sound sleep rounds (quiesce_workloads s) t h)
