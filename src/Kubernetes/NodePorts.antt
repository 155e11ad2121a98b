-- ===== src/Kubernetes/NodePorts.antt =====
-- kubernetes.go: `getNodePortPatch`, which removes the node ports that the last applied
-- configuration does not set.
pub mod Automatic
pub mod Removed
pub mod SetPorts
pub mod Noted
pub mod Removals
use Prim.Native.String.{◌++◌ as ◌<>◌}
use crane_lib.Base.{
  ℕ, suc, ◌+◌, String, Bool, true, false, not, ◌||◌, Option, none, some, List, [], ◌∷◌, ◌++◌,
}
use crane_lib.Base.{Result, ok, err, panic, ◌>>=◌, if◌then◌else◌, string_eq, ◌==◌, contains}
use crane_lib.Base.Int.{ℤ, pos, eq_ℤ, is_positive, is_zero}
use crane_lib.Base.Dict
use crane_lib.Strconv.{atoi, format_int}
use crane_lib.Json.{
  Value, text, integer, float, Elements, nothing, element, Members, member, as_map, as_slice,
  as_text,
}
use crane_lib.Json.Patch.{Operation}
use crane_lib.Transform.DuckType.{spec_field}
use crane_lib.Kubernetes.{Api, Nested, present, absent, mistyped, op_remove}
use crane_lib.Kubernetes.Services.{
  is_text, is_load_balancer_service, should_remove_service_cluster_ip,
  should_remove_service_cluster_ips, remove_if,
}

abbrev pub last_applied_annotation : String
last_applied_annotation = "kubectl.kubernetes.io/last-applied-configuration"

-- The case of a text declares a variable of its own, so the value that Atoi gives is lost and 0 is
-- returned.
unfoldable pub get_node_port_int : Value → Result ℤ
get_node_port_int (integer n) = ok n
get_node_port_int (float n) = ok n
get_node_port_int (text s) = atoi s >>= λ n. ok (pos 0)
get_node_port_int _ = ok (pos 0)

-- The names and the unnamed numbers of the node ports that were set on purpose.
pub record Explicit : Type 0 where
  pub names : List String
  pub numbers : List ℤ

-- `portName.(string)` panics for a name that is no text.
unfoldable pub insert_port : Members → ℤ → Explicit → Result Explicit
unfolding member as_text
insert_port p n e = elim (member "name" p) [
  | none ↦ ok (record { names = e.names; numbers = n ∷ e.numbers })
  | some name ↦ elim (as_text name) [
    | none ↦ panic
    | some s ↦ ok (record { names = s ∷ e.names; numbers = e.numbers })
  ]
]

-- `unnamedPortInts.Has`
abbrev pub has_number : ℤ → List ℤ → Bool
has_number n [] = false
has_number n (m ∷ numbers) = eq_ℤ n m || has_number n numbers

unfoldable pub no_port : Explicit
no_port = record { names = []; numbers = [] }

-- `name.(string)`, or the empty text
unfoldable pub name_of : Members → String
unfolding member as_text
name_of port = elim (member "name" port) [
  | none ↦ ""
  | some name ↦ elim (as_text name) [ none ↦ "" | some s ↦ s ]
]

-- `removeNodePort`, for a port with a node port
unfoldable pub is_automatic : Explicit → Members → ℤ → Bool
unfolding name_of
is_automatic e port n =
    if is_zero n
    then false
    else if name_of port == ""
    then not (has_number n e.numbers)
    else not (contains e.names (name_of port))

-- Whether the node port of a port is removed.
unfoldable pub removes : Explicit → Value → Result Bool
unfolding as_map member get_node_port_int is_automatic
removes e port_interface = elim (as_map port_interface) [
  | none ↦ ok false
  | some port ↦ elim (member "nodePort" port) [
    | none ↦ ok false
    | some node_port ↦ get_node_port_int node_port >>= λ n. ok (is_automatic e port n)
  ]
]

-- `fmt.Sprintf(updateNodePortString, i)`
unfoldable pub node_port_path : ℕ → String
node_port_path i = "/spec/ports/" <> (format_int (pos i) <> "/nodePort")

-- A Service that has a type, is not an ExternalName, and has a list of ports.
unfoldable pub ports_of : Members → Option Elements
unfolding spec_field is_text as_slice
ports_of u = elim (spec_field u "type") [
  | none ↦ none
  | some service_type ↦
      if is_text "ExternalName" service_type
      then none
      else elim (spec_field u "ports") [ none ↦ none | some ports ↦ as_slice ports ]
]

module _ (api : Api) where
  -- The round for one port of the last applied configuration.
  unfoldable pub note_port : Value → Explicit → Result Explicit
  unfolding as_map get_node_port_int insert_port
  note_port port e = elim (as_map port) [
    | none ↦ ok e
    | some p ↦ elim (api.nested_field p ("nodePort" ∷ [])) [
      | mistyped message ↦ err message
      | absent ↦ ok e
      | present node_port ↦
          get_node_port_int node_port >>= λ n. if is_positive n then insert_port p n e else ok e
    ]
  ]

  unfoldable pub note_ports : Elements → Explicit → Result Explicit
  unfolding note_port
  note_ports nothing e = ok e
  note_ports (element port ports) e = note_port port e >>= λ e'. note_ports ports e'

  unfoldable pub explicit_ports : Members → Result Explicit
  unfolding note_ports no_port
  explicit_ports u = elim (Dict.lookup last_applied_annotation (api.annotations u)) [
    | none ↦ ok no_port
    | some config ↦ api.unmarshal_map config >>= λ applied.
        elim (api.nested_slice applied ("spec" ∷ "ports" ∷ [])) [
          | mistyped message ↦ err message
          | absent ↦ ok no_port
          | present ports ↦ note_ports ports no_port
        ]
  ]

  unfoldable pub remove_ports : Explicit → ℕ → Elements → Result (List Operation)
  unfolding removes node_port_path remove_if
  remove_ports e i nothing = ok []
  remove_ports e i (element port ports) = removes e port >>= λ automatic.
      remove_if api automatic (node_port_path i) >>= λ patch.
      remove_ports e (suc i) ports >>= λ patches. ok (patch ++ patches)

  unfoldable pub get_node_port_patch : Members → Result (List Operation)
  unfolding ports_of explicit_ports remove_ports
  get_node_port_patch u = elim (ports_of u) [
    | none ↦ ok []
    | some ports ↦ explicit_ports u >>= λ e. remove_ports e 0 ports
  ]

  unfoldable pub remove_service_fields : Members → Result (List Operation)
  unfolding remove_if is_load_balancer_service should_remove_service_cluster_ip
      should_remove_service_cluster_ips get_node_port_patch
  remove_service_fields obj =
      remove_if api (is_load_balancer_service obj) "/spec/externalIPs" >>= λ external.
      remove_if api (should_remove_service_cluster_ip obj) "/spec/clusterIP" >>= λ ip.
      remove_if api (should_remove_service_cluster_ips obj) "/spec/clusterIPs" >>= λ ips.
      get_node_port_patch obj >>= λ ports. ok (((external ++ ip) ++ ips) ++ ports)
