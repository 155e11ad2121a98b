-- ===== src/Kubernetes/Services.antt =====
-- kubernetes.go: the fields that a Service loses besides its node ports.
use crane_lib.Base.{String, Bool, true, false, not, none, some, List, []}
use crane_lib.Base.{Result, ok, if◌then◌else◌, string_eq, ◌==◌}
use crane_lib.Json.{Value, text, slice, nothing, element, Members}
use crane_lib.Json.Patch.{Operation}
use crane_lib.Transform.DuckType.{spec_field}
use crane_lib.Kubernetes.{Api, op_remove}

-- `v == s` for a value of any type
unfoldable pub is_text : String → Value → Bool
is_text s (text t) = t == s
is_text s _ = false

unfoldable pub is_load_balancer_service : Members → Bool
unfolding spec_field is_text
is_load_balancer_service u = elim (spec_field u "type") [
  | none ↦ false
  | some service_type ↦ is_text "LoadBalancer" service_type
]

unfoldable pub should_remove_service_cluster_ip : Members → Bool
unfolding spec_field is_text
should_remove_service_cluster_ip u = elim (spec_field u "clusterIP") [
  | none ↦ false
  | some cluster_ip ↦ not (is_text "None" cluster_ip)
]

-- Whatever is no list of which the first is "None" is removed.
unfoldable pub removable_ips : Value → Bool
unfolding is_text
removable_ips (slice nothing) = true
removable_ips (slice (element first rest)) = not (is_text "None" first)
removable_ips _ = true

unfoldable pub should_remove_service_cluster_ips : Members → Bool
unfolding spec_field removable_ips
should_remove_service_cluster_ips u = elim (spec_field u "clusterIPs") [
  | none ↦ false
  | some cluster_ips ↦ removable_ips cluster_ips
]

-- The remove operation of a path if a test holds.
unfoldable pub remove_if : Api → Bool → String → Result (List Operation)
unfolding op_remove
remove_if api test path = if test then api.decode_patch (op_remove path) else ok []
