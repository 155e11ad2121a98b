-- ===== src/Kubernetes/NodePorts/SetPorts.antt =====
-- The node ports that the last applied configuration of a Service sets.
use crane_lib.Base.{String, true, false, none, some, [], ◌∷◌}
use crane_lib.Base.{ok, >>=-eq-ok, ok-injective, string_eq, ◌≡◌, refl, ◌∙◌, ap, inl, inr, ◌⊎◌}
use crane_lib.Base.Int.{ℤ, pos, is_positive, is_zero}
use crane_lib.Base.Dict
use crane_lib.Strconv.{atoi}
use crane_lib.Json.{
  Value, null, boolean, integer, float, text, object, slice, Members, Elements, nothing, element,
  member, as_map, as_text,
}
use crane_lib.Kubernetes.{Api, present, absent}
use crane_lib.Kubernetes.NodePorts.{
  no_port, get_node_port_int, note_ports, explicit_ports, last_applied_annotation,
}

-- The value is the number `n`.
abbrev pub IsNumber : Value → ℤ → Type 0
IsNumber v n = (v ≡ integer n) ⊎ (v ≡ float n)

-- The port has a name, which is a text.
abbrev pub IsCalled : Members → String → Type 0
IsCalled port s = (v : Value) × (member "name" port ≡ some v) × (as_text v ≡ some s)

abbrev pub Has : (Value → Type 0) → Elements → Type 0
Has P nothing = ⊥
Has P (element v vs) = P v ⊎ Has P vs

module _ (api : Api) where
  -- A port that sets a positive node port.
  abbrev pub Sets : Value → Members → ℤ → Type 0
  Sets v port n =
      (as_map v ≡ some port)
      × ((node_port : Value) × (api.nested_field port ("nodePort" ∷ []) ≡ present node_port)
          × IsNumber node_port n)
      × (is_positive n ≡ true)

  abbrev pub SetsName : String → Value → Type 0
  SetsName s v = (port : Members) × (n : ℤ) × Sets v port n × IsCalled port s

  abbrev pub SetsNumber : ℤ → Value → Type 0
  SetsNumber n v = (port : Members) × Sets v port n × (member "name" port ≡ none)

  -- The ports of the last applied configuration, none if there is no such configuration or list.
  abbrev pub Applied : Members → Elements → Type 0
  Applied u ports =
      ((Dict.lookup last_applied_annotation (api.annotations u) ≡ none) × (ports ≡ nothing))
      ⊎ ((config : String) × (applied : Members) × (Dict.lookup last_applied_annotation
              (api.annotations u)
            ≡ some config)
          × (api.unmarshal_map config ≡ ok applied)
          × (((api.nested_slice applied ("spec" ∷ "ports" ∷ []) ≡ absent) × (ports ≡ nothing))
              ⊎ (api.nested_slice applied ("spec" ∷ "ports" ∷ []) ≡ present ports)))

  pub explicit_ports-Applied :
      (u : Members) (ports : Elements)
      → Applied u ports
      → explicit_ports api u ≡ note_ports api ports no_port
  unfolding explicit_ports note_ports
  explicit_ports-Applied u ports (inl (none_there, is)) =
      rw (none_there, explicit_ports) (rw is refl)
  explicit_ports-Applied u ports (inr (config, applied, found, read, inl (gone, is))) =
      rw (found, explicit_ports) (rw read (rw (gone, is) refl))
  explicit_ports-Applied u ports (inr (config, applied, found, read, inr listed)) =
      rw (found, explicit_ports) (rw read (rw listed refl))

not_zero : (n : ℤ) → ok (pos 0) ≡ ok n → is_zero n ≡ false → ⊥
not_zero n h nz = let q : true ≡ false = ap is_zero (ok-injective (pos 0) n h) ∙ nz in cc

-- A node port other than 0 is the number that the value is.
pub get_node_port_int-IsNumber :
    (v : Value) (n : ℤ) → get_node_port_int v ≡ ok n → is_zero n ≡ false → IsNumber v n
unfolding get_node_port_int
get_node_port_int-IsNumber (integer m) n h nz = inl (ap integer (ok-injective m n h))
get_node_port_int-IsNumber (float m) n h nz = inr (ap float (ok-injective m n h))
get_node_port_int-IsNumber (text s) n h nz =
    let (k, r, is) = >>=-eq-ok (atoi s) _ h in absurd (not_zero n is nz)
get_node_port_int-IsNumber null n h nz = absurd (not_zero n h nz)
get_node_port_int-IsNumber (boolean b) n h nz = absurd (not_zero n h nz)
get_node_port_int-IsNumber (object b) n h nz = absurd (not_zero n h nz)
get_node_port_int-IsNumber (slice b) n h nz = absurd (not_zero n h nz)

pub IsNumber→get_node_port_int : (v : Value) (n : ℤ) → IsNumber v n → get_node_port_int v ≡ ok n
unfolding get_node_port_int
IsNumber→get_node_port_int v n (inl is) = rw is refl
IsNumber→get_node_port_int v n (inr is) = rw is refl
