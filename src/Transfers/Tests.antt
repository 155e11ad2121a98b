-- ===== src/Transfers/Tests.antt =====
-- The theorem on the health of pods, at two pods of which one is ready.
use crane_lib.Base.{String, Bool, true, false, none, some, List, [], ◌∷◌, any}
use crane_lib.Base.{◌≡◌, refl, inr, ◌⊎◌, ◌↔◌}
use crane_lib.Rsync.{Aggregate}
use crane_lib.Rsync.Command.Errors.{IsAggregate}
use crane_lib.Transfers.{
  ContainerStatus, PodStatus, are_filtered_pods_healthy, first_ready, are_containers_ready,
  all_ready,
}
use crane_lib.Transfers.Healthy.{two_ready, are_filtered_pods_healthy_lem}

abbrev first_error : Aggregate
first_error [] = none
first_error (none ∷ errs) = first_error errs
first_error (some e ∷ errs) = some e

first_error-IsAggregate : IsAggregate first_error
first_error-IsAggregate [] = (λ h. tt, λ h. refl)
first_error-IsAggregate (none ∷ errs) =
    let rest = first_error-IsAggregate errs in (λ h. (refl, rest.0 h), λ (_, h). rest.1 h)
first_error-IsAggregate (some e ∷ errs) =
    (λ never. absurd (cc never), λ (never, _). absurd (cc never))

abbrev container : String → Bool → ContainerStatus
container name ready = record { name = name; ready = ready }

abbrev pods : List PodStatus
pods =
    record { key = "shop/a"; container_statuses = container "rsync" true ∷ [] }
    ∷ record {
      key = "shop/b";
      container_statuses = container "rsync" true ∷ container "stunnel" true ∷ [];
    }
    ∷ []

are_filtered_pods_healthy_lem_example :
    let r = are_filtered_pods_healthy first_error (inr pods) in
    let found = any (λ p. two_ready p.container_statuses) pods in
    (r.0 ≡ found) × ((r.1 ≡ none) ↔ ((found ≡ true) ⊎ (pods ≡ [])))
are_filtered_pods_healthy_lem_example =
    are_filtered_pods_healthy_lem first_error first_error-IsAggregate pods

one_is_ready : are_filtered_pods_healthy first_error (inr pods) ≡ (true, none)
unfolding are_filtered_pods_healthy first_ready are_containers_ready all_ready
one_is_ready = refl

none_listed : are_filtered_pods_healthy first_error (inr []) ≡ (false, none)
unfolding are_filtered_pods_healthy first_ready
none_listed = refl
