-- ===== src/Kubernetes/Tests/Ports.antt =====
-- The theorem on node ports, at a Service.
use crane_lib.Base.{ℕ, String, some, List, [], ◌∷◌}
use crane_lib.Base.{ok, inr, string_eq, ◌≡◌, refl, ◌↔◌}
use crane_lib.Base.Dict
use crane_lib.Base.Dict.{Dict}
use crane_lib.Base.Int.{pos}
use crane_lib.Strings.{trim_suffix}
use crane_lib.Strconv.{format_int}
use crane_lib.Json.{
  Value, integer, text, object, slice, Members, empty, entry, Elements, nothing, element, get,
  member, as_slice, as_map, as_text,
}
use crane_lib.Json.Patch.{Operation, remove}
use crane_lib.Kubernetes.{Api, service_gk, op_remove}
use crane_lib.Kubernetes.NodePorts.{
  Explicit, ports_of, explicit_ports, get_node_port_patch, node_port_path, no_port, remove_ports,
  removes, is_automatic, get_node_port_int, name_of,
}
use crane_lib.Kubernetes.NodePorts.Removed.{Among}
use crane_lib.Kubernetes.NodePorts.SetPorts.{Applied}
use crane_lib.Kubernetes.NodePorts.Removals.{RemovesPicked, get_node_port_patch-RemovesPicked}
use crane_lib.Kubernetes.Tests.{api_with, decodes, decode}

-- One port with a node port that the last applied configuration sets, and one without.
abbrev port : String → ℕ → Value
port name n = object (entry "name" (text name) (entry "nodePort" (integer (pos n)) empty))

abbrev ports : Elements
ports = element (port "http" 30080) (element (port "admin" 31000) nothing)

abbrev service : Members
service =
    entry "spec" (object (entry "type" (text "NodePort") (entry "ports" (slice ports) empty))) empty

abbrev applied : Members
applied =
    entry "spec" (object (entry "ports" (slice (element (port "http" 30080) nothing)) empty)) empty

abbrev service_annotations : Dict String String
service_annotations = ("kubectl.kubernetes.io/last-applied-configuration", "{...}") ∷ []

abbrev service_api : Api
service_api = api_with service_gk "web" service_annotations 0 applied

abbrev set_ports : Explicit
set_ports = record { names = "http" ∷ []; numbers = [] }

service-ports : ports_of service ≡ some ports
unfolding ports_of member as_map as_slice string_eq
service-ports = refl

service_explicit : explicit_ports service_api service ≡ ok set_ports
unfolding explicit_ports get member as_map as_slice string_eq Dict.lookup as_text get_node_port_int
    no_port
service_explicit = refl

abbrev service_ops : List Operation
service_ops = remove "/spec/ports/1/nodePort" ∷ []

service_patch : get_node_port_patch service_api service ≡ ok service_ops
unfolding get_node_port_patch explicit_ports ports_of remove_ports removes is_automatic name_of
    node_port_path format_int get member as_map as_slice string_eq Dict.lookup as_text
    get_node_port_int no_port decode op_remove trim_suffix
service_patch = refl

service-Applied : Applied service_api service (element (port "http" 30080) nothing)
unfolding get member as_map as_slice string_eq Dict.lookup
service-Applied = inr ("{...}", applied, refl, refl, inr refl)

get_node_port_patch-RemovesPicked_example :
    Among (remove "/spec/ports/1/nodePort") service_ops
    ↔ RemovesPicked service_api
        (element (port "http" 30080) nothing)
        ports
        (remove "/spec/ports/1/nodePort")
get_node_port_patch-RemovesPicked_example =
    get_node_port_patch-RemovesPicked service_api service ports
      (element (port "http" 30080) nothing) service_ops (remove "/spec/ports/1/nodePort")
      (decodes service_gk "web" service_annotations 0 applied) service-ports service-Applied
      service_patch
