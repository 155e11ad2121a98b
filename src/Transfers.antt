-- ===== src/Transfers.antt =====
-- state_transfer/transfer/transfer.go: whether the pods of a transfer are healthy, and where a
-- client connects.
pub mod Healthy
mod Tests
use Prim.Native.String.{◌++◌ as ◌<>◌}
use crane_lib.Base.{ℕ, String, Bool, true, false, Option, none, some, List, [], ◌∷◌, ◌++◌, length}
use crane_lib.Base.{eqb, if◌then◌else◌, inl, inr, ◌⊎◌}
use crane_lib.Base.Int.{ℤ, pos}
use crane_lib.Strconv.{format_int}
use crane_lib.Rsync.{Aggregate}

pub record ContainerStatus : Type 0 where
  pub name : String
  pub ready : Bool

-- The key is the `client.ObjectKey` of the pod, as it is printed.
pub record PodStatus : Type 0 where
  pub key : String
  pub container_statuses : List ContainerStatus

-- An endpoint and a transport, by what a client asks of them.
pub record Connection : Type 0 where
  pub direct : Bool
  pub hostname : String
  pub exposed_port : ℤ
  pub port : ℤ

unfoldable pub connection_hostname : Connection → String
connection_hostname t = if t.direct then t.hostname else "localhost"

unfoldable pub connection_port : Connection → ℤ
connection_port t = if t.direct then t.exposed_port else t.port

-- The loop of `areContainersReady`.
unfoldable pub all_ready : PodStatus → List ContainerStatus → Bool × Option String
all_ready pod [] = (true, none)
all_ready pod (container_status ∷ rest) =
    let after = all_ready pod rest in
    if container_status.ready then after else (
      false,
      some
          ("container " <> (container_status.name <> (" in pod " <> (pod.key <> " is not ready")))),
    )

unfoldable pub are_containers_ready : PodStatus → Bool × Option String
unfolding all_ready
are_containers_ready pod =
    if eqb (length pod.container_statuses) 2 then all_ready pod pod.container_statuses else (
      false,
      some (
          "expected two container statuses found "
          <> (format_int (pos (length pod.container_statuses)) <> (", for pod " <> pod.key))),
    )

-- `IsPodHealthy`, by what `Get` gives: an error, or the pod.
unfoldable pub is_pod_healthy : String ⊎ PodStatus → Bool × Option String
unfolding are_containers_ready
is_pod_healthy (inl e) = (false, some e)
is_pod_healthy (inr pod) = are_containers_ready pod

abbrev pub append_error : List (Option String) → Option String → List (Option String)
append_error errs none = errs
append_error errs (some e) = errs ++ (some e ∷ [])

module _ (aggregate : Aggregate) where
  -- The loop of `AreFilteredPodsHealthy`, with the errors so far.
  unfoldable pub first_ready : List (Option String) → List PodStatus → Bool × Option String
  unfolding are_containers_ready
  first_ready errs [] = (false, aggregate errs)
  first_ready errs (p ∷ rest) =
      let (pod_ready, e) = are_containers_ready p in
      let after = first_ready (append_error errs e) rest in
      if pod_ready then (true, none) else after

  -- `AreFilteredPodsHealthy`, by what `List` gives: an error, or the pods.
  unfoldable pub are_filtered_pods_healthy : String ⊎ List PodStatus → Bool × Option String
  unfolding first_ready
  are_filtered_pods_healthy (inl e) = (false, some e)
  are_filtered_pods_healthy (inr pods) = first_ready [] pods
