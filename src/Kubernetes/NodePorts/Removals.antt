-- ===== src/Kubernetes/NodePorts/Removals.antt =====
-- Which node ports `getNodePortPatch` removes, by the last applied configuration.
use crane_lib.Base.{ℕ, String, false, some, List, contains}
use crane_lib.Base.{
  ok, ◌≡◌, ◌≢◌, refl, sym, ap, ◌∙◌, inl, inr, ◌⊎◌, ◌↔◌, >>=-eq-ok, Bool-cases, Option-cases,
  string_eq,
}
use crane_lib.Base.Int.{ℤ, pos, is_zero}
use crane_lib.Json.{Value, Members, Elements, member, as_map, as_text}
use crane_lib.Json.Patch.{Operation, remove}
use crane_lib.Kubernetes.{Api, DecodesRemove}
use crane_lib.Kubernetes.NodePorts.{
  Explicit, has_number, name_of, node_port_path, ports_of, explicit_ports, remove_ports,
  get_node_port_patch,
}
use crane_lib.Kubernetes.NodePorts.Automatic.{Automatic, unnamed, named}
use crane_lib.Kubernetes.NodePorts.Removed.{at, Among, get_node_port_patch-Among}
use crane_lib.Kubernetes.NodePorts.Noted.{explicit_ports-Applied_iff}
use crane_lib.Kubernetes.NodePorts.SetPorts.{
  IsNumber, IsCalled, Has, SetsName, SetsNumber, Applied, get_node_port_int-IsNumber,
  IsNumber→get_node_port_int,
}

-- The port has a name other than the empty text.
abbrev pub IsNamed : Members → String → Type 0
IsNamed port s = IsCalled port s × (s ≢ "")

module _ (api : Api) where
  -- The value is a port with a node port other than 0, given as a number, that no port of the last
  -- applied configuration sets: none under the name of the port or, if it has no name, none without
  -- a name to the same number.
  abbrev pub IsPicked : Elements → Value → Type 0
  IsPicked applied v =
      (port : Members) × (node_port : Value) × (n : ℤ) × (as_map v ≡ some port)
      × (member "nodePort" port ≡ some node_port)
      × IsNumber node_port n
      × (is_zero n ≡ false)
      × (((s : String) × IsNamed port s × ¬ (Has (SetsName api s) applied))
          ⊎ (((s : String) → ¬ (IsNamed port s)) × ¬ (Has (SetsNumber api n) applied)))

IsCalled→name_of : (port : Members) (s : String) → IsCalled port s → name_of port ≡ s
unfolding name_of
IsCalled→name_of port s (v, found, is) = rw (found, name_of) (rw (is, name_of) refl)

name_of-IsCalled : (port : Members) → name_of port ≢ "" → IsCalled port (name_of port)
unfolding name_of
name_of-IsCalled port h = elim (Option-cases (member "name" port)) [
  | inl gone ↦ absurd (h (rw (gone, name_of) refl))
  | inr (v, found) ↦ elim (Option-cases (as_text v)) [
    | inl no_text ↦ absurd (h (rw (found, name_of) (rw (no_text, name_of) refl)))
    | inr (s, is) ↦ (v, found, is ∙ ap some (sym (IsCalled→name_of port s (v, found, is))))
  ]
]

module _ (api : Api) (u : Members) (applied : Elements) (e : Explicit)
    (is_applied : Applied api u applied) (explicit : explicit_ports api u ≡ ok e) where
  no_name : (s : String) → (contains e.names s ≡ false) ↔ (¬ (Has (SetsName api s) applied))
  no_name s =
      let (to, from) =
        (explicit_ports-Applied_iff api u applied e s (pos 0) is_applied explicit).0 in
      (
        λ out has. absurd (cc (sym out ∙ from has)),
        λ never. elim (Bool-cases (contains e.names s)) [
          | inl within ↦ absurd (never (to within))
          | inr out ↦ out
        ],
      )

  no_number : (n : ℤ) → (has_number n e.numbers ≡ false) ↔ (¬ (Has (SetsNumber api n) applied))
  no_number n =
      let (to, from) = (explicit_ports-Applied_iff api u applied e "" n is_applied explicit).1 in
      (
        λ out has. absurd (cc (sym out ∙ from has)),
        λ never. elim (Bool-cases (has_number n e.numbers)) [
          | inl within ↦ absurd (never (to within))
          | inr out ↦ out
        ],
      )

  Automatic→IsPicked : (v : Value) → Automatic e v → IsPicked api applied v
  Automatic→IsPicked v (unnamed port node_port n m p r nz blank out) = (
    port,
    node_port,
    n,
    m,
    p,
    get_node_port_int-IsNumber node_port n r nz,
    nz,
    inr (
      λ s (called, full). full (sym (IsCalled→name_of port s called) ∙ blank),
      (no_number n).0 out,
    ),
  )
  Automatic→IsPicked v (named port node_port n m p r nz name out) = (
    port,
    node_port,
    n,
    m,
    p,
    get_node_port_int-IsNumber node_port n r nz,
    nz,
    inl (name_of port, (name_of-IsCalled port name, name), (no_name (name_of port)).0 out),
  )

  IsPicked→Automatic : (v : Value) → IsPicked api applied v → Automatic e v
  IsPicked→Automatic v (port, node_port, n, m, p, number, nz, inl (s, (called, full), never)) =
      let is = IsCalled→name_of port s called in
      named port node_port n m p (IsNumber→get_node_port_int node_port n number) nz
        (λ q. full (sym is ∙ q)) (ap (contains e.names) is ∙ (no_name s).1 never)
  IsPicked→Automatic v (port, node_port, n, m, p, number, nz, inr (nameless, never)) =
      elim (string_eq.dec (name_of port) "") [
        | yes blank ↦
            unnamed port node_port n m p (IsNumber→get_node_port_int node_port n number) nz blank
              ((no_number n).1 never)
        | no name ↦ absurd (nameless (name_of port) (name_of-IsCalled port name, name))
      ]

-- An operation that removes the node port of a port that the last applied configuration does not
-- set.
abbrev pub RemovesPicked : Api → Elements → Elements → Operation → Type 0
RemovesPicked api applied ports o =
    (i : ℕ) × (port : Value) × (at i ports ≡ some port)
    × IsPicked api applied port
    × (o ≡ remove (node_port_path i))

-- Where the text of a removal is decoded as that removal: if `ports` are the ports of a Service and
-- `applied` those of its last applied configuration, and the patch is found, then an operation is in
-- it exactly if it removes, under the index of a port, the node port of that port, where the node
-- port is a number other than 0 and the configuration sets no positive node port under the port's
-- name or, if the port has no name, none without a name to the same number.
pub get_node_port_patch-RemovesPicked :
    (api : Api) (u : Members) (ports applied : Elements) (ops : List Operation) (o : Operation)
    → DecodesRemove api
    → ports_of u ≡ some ports
    → Applied api u applied
    → get_node_port_patch api u ≡ ok ops
    → Among o ops ↔ RemovesPicked api applied ports o
unfolding get_node_port_patch
get_node_port_patch-RemovesPicked api u ports applied ops o decodes p is_applied h =
    let (e, explicit, _) =
      >>=-eq-ok (explicit_ports api u) (λ e. remove_ports api e 0 ports)
        (sym (rw (p, get_node_port_patch) refl) ∙ h) in
    let both = get_node_port_patch-Among api decodes u ports e ops o p explicit h in
    (
      λ among.
          let (i, port, found, auto, is) = both.0 among in
          (i, port, found, Automatic→IsPicked api u applied e is_applied explicit port auto, is),
      λ (i, port, found, picked, is).
          both.1 (
            i,
            port,
            found,
            IsPicked→Automatic api u applied e is_applied explicit port picked,
            is,
          ),
    )
