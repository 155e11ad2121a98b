-- ===== src/Quiesce/Tests.antt =====
-- The theorems on quiescing, on small clusters.
use crane_lib.Base.{
  ◌<◌, String, ℕ, suc, zero, true, false, some, List, [], ◌∷◌, ◌≡◌, refl, arith, Result, ok, err,
  subst, ◌↔◌, All,
}
use crane_lib.Base.{contains, string_eq}
use crane_lib.Base.Dict
use crane_lib.Base.Dict.{Dict}
use crane_lib.Base.Int.{ℤ, pos}
use crane_lib.Cluster.{Client, NamespacedName, skip, outcome, for_each, find, DistinctNames}
use crane_lib.Cluster.Store.{Objects, store, stored, store-IsLawful, store-IsReliable}
use crane_lib.Quiesce.{Scaled, DeploymentConfig, DaemonSet, CronJob}
use crane_lib.Quiesce.{
  quiesce_daemon_set, unquiesce_daemon_set, quiesce_cron_job, unquiesce_cron_job, quiesce_job,
  unquiesce_job, quiesce_deployment, quiesce_stateful_set, quiesce_replica_set,
  quiesce_node_selector,
}
use crane_lib.Quiesce.RoundTrip.{deployment, quiesce, unquiesce, IsFresh}
use crane_lib.Quiesce.Namespace.{get-unquiesced}
use crane_lib.Quiesce.Others.{
  unquiesce-quiesce_daemon_set, unquiesce-quiesce_cron_job, unquiesce-quiesce_job_twice,
  quiesce_twice,
}
use crane_lib.Quiesce.Pods.{
  Pod, pods_terminated, pods_terminated_iff, wait_terminated, wait_terminated_lem,
  wait_terminated_sound, ensure_quiesced_pods_terminated, iterate, skipped_phases, IsFree,
}
use crane_lib.Quiesce.Applications.{Api, quiesce_applications, quiesce_applications_sound}

abbrev app_key : NamespacedName
app_key = record { namespace = "shop"; name = "app" }

abbrev app : Scaled
app = record {
  key = app_key;
  annotations = ("team", "web") ∷ [];
  owner_references = 0;
  replicas = some (pos 3);
}

app-IsFresh : IsFresh app (pos 3)
unfolding Dict.lookup string_eq
app-IsFresh = record { counted = refl; fits = omega arith; unmarked = refl }

cluster-DistinctNames : DistinctNames (λ (x : Scaled). x.key) (app ∷ [])
unfolding find
cluster-DistinctNames = (refl, tt)

abbrev cluster : Objects (λ (x : Scaled). x.key)
cluster = (app ∷ [], cluster-DistinctNames)

only_app :
    (m : NamespacedName) (x : Scaled) → stored (λ (x : Scaled). x.key) cluster m ≡ some x → app ≡ x
unfolding find
only_app m x found = ground (arith, found)

cluster-IsFresh :
    (m : NamespacedName) (x : Scaled)
    → m.namespace ≡ "shop"
    → stored (λ (x : Scaled). x.key) cluster m ≡ some x
    → (n : ℤ) × IsFresh x n
unfolding find
cluster-IsFresh m x e found =
    (pos 3, subst (λ y. IsFresh y (pos 3)) (only_app m x found) app-IsFresh)

get-unquiesced_example :
    (t u : Objects (λ (x : Scaled). x.key)) × (for_each
        (store (λ (x : Scaled). x.key))
        (quiesce deployment)
        "shop"
        cluster
      ≡ (t, ok tt))
    × (for_each (store (λ (x : Scaled). x.key)) (unquiesce deployment) "shop" t ≡ (u, ok tt))
    × ((m : NamespacedName)
        → stored (λ (x : Scaled). x.key) u m ≡ stored (λ (x : Scaled). x.key) cluster m)
get-unquiesced_example =
    get-unquiesced (store (λ (x : Scaled). x.key)) (stored (λ (x : Scaled). x.key))
      (store-IsLawful (λ (x : Scaled). x.key)) (store-IsReliable (λ (x : Scaled). x.key)) deployment
      "shop" cluster cluster-IsFresh

abbrev config : DeploymentConfig
config = record { key = app_key; annotations = []; replicas = pos 2 }

abbrev agent : DaemonSet
agent = record { key = app_key; annotations = []; node_selector = [] }

-- A codec that knows the empty selector.
abbrev write_selector : Dict String String → Result String
write_selector [] = ok "{}"
write_selector (entry ∷ rest) = err "unknown"

abbrev read_selector : String → Result (Dict String String)
read_selector text = ok []

unquiesce-quiesce_daemon_set_example :
    (Dict.lookup quiesce_node_selector
        (outcome (quiesce_daemon_set write_selector agent) agent).node_selector
      ≡ some "true")
    × (outcome
          (unquiesce_daemon_set read_selector
            (outcome (quiesce_daemon_set write_selector agent) agent))
          (outcome (quiesce_daemon_set write_selector agent) agent)
        ≡ agent)
unfolding Dict.lookup
unquiesce-quiesce_daemon_set_example =
    unquiesce-quiesce_daemon_set write_selector read_selector agent "{}" refl refl refl refl

abbrev nightly : CronJob
nightly = record { key = app_key; annotations = []; suspend = some true }

unquiesce-quiesce_cron_job_example :
    outcome
      (unquiesce_cron_job (outcome (quiesce_cron_job nightly) nightly))
      (outcome (quiesce_cron_job nightly) nightly)
    ≡ record nightly { suspend = some false }
unfolding Dict.lookup
unquiesce-quiesce_cron_job_example = unquiesce-quiesce_cron_job nightly refl

unquiesce-quiesce_job_twice_example :
    let y = outcome (quiesce_job app) app in
    let z = outcome (quiesce_job y) y in (outcome (unquiesce_job z) z).replicas ≡ some (pos 0)
unquiesce-quiesce_job_twice_example = unquiesce-quiesce_job_twice app (pos 3) refl

quiesce_twice_example :
    (quiesce_deployment (outcome (quiesce_deployment app) app) ≡ skip)
    × (quiesce_stateful_set (outcome (quiesce_stateful_set app) app) ≡ skip)
    × (quiesce_replica_set (outcome (quiesce_replica_set app) app) ≡ skip)
quiesce_twice_example = quiesce_twice app (pos 3) refl

abbrev pods : List Pod
pods =
    record { phase = "Succeeded"; owner_kinds = "Job" ∷ [] }
    ∷ record { phase = "Running"; owner_kinds = "Operator" ∷ [] }
    ∷ []

pods_terminated_iff_example :
    (pods_terminated pods ≡ true)
    ↔ All (λ p. contains skipped_phases p.phase ≡ false → IsFree p) pods
pods_terminated_iff_example = pods_terminated_iff pods

abbrev busy : List Pod
busy = record { phase = "Running"; owner_kinds = "ReplicaSet" ∷ [] } ∷ []

-- A cluster that counts down to the end of its pods.
abbrev countdown : String → ℕ → Result (List Pod)
countdown ns zero = ok pods
countdown ns (suc n) = ok busy

abbrev tick : ℕ → ℕ
tick zero = zero
tick (suc n) = n

busy_at :
    (m : ℕ) → m < 2 → ensure_quiesced_pods_terminated countdown "shop" (iterate tick m 2) ≡ ok false
unfolding ensure_quiesced_pods_terminated pods_terminated string_eq
busy_at zero h = refl
busy_at (suc zero) h = refl
busy_at (suc (suc m)) h = absurd (omega arith)

done_at : ensure_quiesced_pods_terminated countdown "shop" 0 ≡ ok true
unfolding ensure_quiesced_pods_terminated pods_terminated string_eq
done_at = refl

wait_terminated_lem_example : wait_terminated countdown "shop" tick 5 2 ≡ some (0, ok tt)
wait_terminated_lem_example =
    wait_terminated_lem countdown "shop" tick 2 5 2 (omega arith) busy_at done_at

wait_terminated_sound_example : ensure_quiesced_pods_terminated countdown "shop" 0 ≡ ok true
wait_terminated_sound_example =
    wait_terminated_sound countdown "shop" tick 5 2 0 wait_terminated_lem_example

-- A namespace with nothing but pods.
abbrev no_objects : {X : Type 0} → Client ℕ X
no_objects = record { list = λ ns s. ok []; update = λ x s. (s, ok tt) }

abbrev api : Api ℕ
api = record {
  cron_jobs = no_objects;
  deployment_configs = no_objects;
  deployments = no_objects;
  stateful_sets = no_objects;
  replica_sets = no_objects;
  daemon_sets = no_objects;
  jobs = no_objects;
  pods = countdown;
}

quiesced_api :
    quiesce_applications api write_selector read_selector "shop" tick 5 2 ≡ some (0, ok tt)
unfolding quiesce_applications for_each wait_terminated ensure_quiesced_pods_terminated
    pods_terminated string_eq
quiesced_api = refl

quiesce_applications_sound_example :
    (ps : List Pod) × (api.pods "shop" 0 ≡ ok ps)
    × All (λ p. contains skipped_phases p.phase ≡ false → IsFree p) ps
quiesce_applications_sound_example =
    quiesce_applications_sound api write_selector read_selector "shop" tick 5 2 0 quiesced_api
