-- ===== src/Kubernetes/NodePorts/Removed.antt =====
-- Which node ports `getNodePortPatch` removes.
use crane_lib.Base.{ℕ, zero, suc, ◌+◌, Bool, true, false, Option, none, some, List, [], ◌∷◌, ◌++◌}
use crane_lib.Base.{
  ok, string_eq, ◌≡◌, refl, sym, ap, ◌∙◌, arith, inl, inr, ◌⊎◌, ◌↔◌, ok-injective, >>=-eq-ok, subst,
}
use crane_lib.Json.{Value, Elements, nothing, element, Members}
use crane_lib.Json.Patch.{Operation, remove}
use crane_lib.Kubernetes.{Api, DecodesRemove}
use crane_lib.Kubernetes.Services.{remove_if}
use crane_lib.Kubernetes.NodePorts.{
  Explicit, removes, node_port_path, remove_ports, ports_of, explicit_ports, get_node_port_patch,
}
use crane_lib.Kubernetes.NodePorts.Automatic.{
  node_port_path-plain, Automatic, removes→Automatic, Automatic→removes,
}

-- The element at an index.
abbrev pub at : ℕ → Elements → Option Value
at i nothing = none
at zero (element v vs) = some v
at (suc i) (element v vs) = at i vs

abbrev pub Among : Operation → List Operation → Type 0
Among o [] = ⊥
Among o (x ∷ xs) = (o ≡ x) ⊎ Among o xs

-- An operation that removes the node port of an automatic port, the ports counted from `j` on.
abbrev RemovesFrom : Explicit → ℕ → Elements → Operation → Type 0
RemovesFrom e j ports o =
    (i : ℕ) × (port : Value) × (at i ports ≡ some port)
    × Automatic e port
    × (o ≡ remove (node_port_path (j + i)))

further :
    (e : Explicit) (j : ℕ) (port : Value) (ports : Elements) (o : Operation)
    → RemovesFrom e (suc j) ports o
    → RemovesFrom e j (element port ports) o
further e j port ports o (i, p, found, auto, is) = (
  suc i,
  p,
  found,
  auto,
  is ∙ ap (λ n. remove (node_port_path n)) (let q : suc j + i ≡ j + suc i = omega arith in q),
)

at_head :
    (e : Explicit) (j : ℕ) (port : Value) (ports : Elements) (o : Operation)
    → Automatic e port
    → o ≡ remove (node_port_path j)
    → RemovesFrom e j (element port ports) o
at_head e j port ports o auto is = (
  0,
  port,
  refl,
  auto,
  is ∙ ap (λ n. remove (node_port_path n)) (let q : j ≡ j + 0 = omega arith in q),
)

first_or_later :
    (e : Explicit) (j : ℕ) (port : Value) (ports : Elements) (o : Operation)
    → RemovesFrom e j (element port ports) o
    → (Automatic e port × (o ≡ remove (node_port_path j))) ⊎ RemovesFrom e (suc j) ports o
first_or_later e j port ports o (zero, v, found, auto, is) = inl (
  subst (Automatic e) (let q : v ≡ port = ground arith in q) auto,
  is ∙ ap (λ n. remove (node_port_path n)) (let q : j + 0 ≡ j = omega arith in q),
)
first_or_later e j port ports o (suc i, v, found, auto, is) = inr (
  i,
  v,
  found,
  auto,
  is ∙ ap (λ n. remove (node_port_path n)) (let q : j + suc i ≡ suc j + i = omega arith in q),
)

-- An operation that removes the node port of an automatic port.
abbrev pub Removes : Explicit → Elements → Operation → Type 0
Removes e ports o =
    (i : ℕ) × (port : Value) × (at i ports ≡ some port)
    × Automatic e port
    × (o ≡ remove (node_port_path i))

module _ (api : Api) (decodes : DecodesRemove api) where
  remove_if-Among :
      (test : Bool) (i : ℕ) (patch : List Operation) (o : Operation)
      → remove_if api test (node_port_path i) ≡ ok patch
      → Among o patch ↔ ((test ≡ true) × (o ≡ remove (node_port_path i)))
  unfolding remove_if
  remove_if-Among true i patch o h =
      subst (λ patch. Among o patch ↔ ((true ≡ true) × (o ≡ remove (node_port_path i))))
        (ok-injective _ patch (sym (decodes (node_port_path i) (node_port_path-plain i)) ∙ h))
        (λ among. elim among [ inl q ↦ (refl, q) | inr never ↦ absurd never ], λ (_, q). inl q)
  remove_if-Among false i patch o h =
      subst (λ patch. Among o patch ↔ ((false ≡ true) × (o ≡ remove (node_port_path i))))
        (ok-injective [] patch h) (λ never. absurd never, λ (never, _). absurd (cc never))

  Among-append : (o : Operation) (p q : List Operation) → Among o (p ++ q) ↔ (Among o p ⊎ Among o q)
  Among-append o [] q = (λ h. inr h, λ h. elim h [ inl never ↦ absurd never | inr h ↦ h ])
  Among-append o (x ∷ p) q = (
    λ h. elim h [
      | inl e ↦ inl (inl e)
      | inr later ↦ elim ((Among-append o p q).0 later) [
        | inl in_p ↦ inl (inr in_p)
        | inr in_q ↦ inr in_q
      ]
    ],
    λ h. elim h [
      | inl (inl e) ↦ inl e
      | inl (inr in_p) ↦ inr ((Among-append o p q).1 (inl in_p))
      | inr in_q ↦ inr ((Among-append o p q).1 (inr in_q))
    ],
  )

  remove_ports-Among :
      (e : Explicit) (j : ℕ) (ports : Elements) (ops : List Operation) (o : Operation)
      → remove_ports api e j ports ≡ ok ops
      → Among o ops ↔ RemovesFrom e j ports o
  unfolding remove_ports
  remove_ports-Among e j nothing ops o h =
      subst (λ ops. Among o ops ↔ RemovesFrom e j nothing o) (ok-injective [] ops h)
        (λ never. absurd never, λ (i, port, found, auto, is). absurd (cc found))
  remove_ports-Among e j (element port ports) ops o h =
      let (auto, r, h1) = >>=-eq-ok (removes e port) _ h in
      let (p, one, h2) = >>=-eq-ok (remove_if api auto (node_port_path j)) _ h1 in
      let (q, rest, h3) = >>=-eq-ok (remove_ports api e (suc j) ports) _ h2 in
      let here = remove_if-Among auto j p o one in
      let later = remove_ports-Among e (suc j) ports q o rest in
      subst (λ ops. Among o ops ↔ RemovesFrom e j (element port ports) o)
        (ok-injective (p ++ q) ops h3)
        (
          λ among. elim ((Among-append o p q).0 among) [
            | inl in_p ↦
                let (t, is) = here.0 in_p in
                at_head e j port ports o (removes→Automatic e port (r ∙ ap ok t)) is
            | inr in_q ↦ further e j port ports o (later.0 in_q)
          ],
          λ from. (Among-append o p q).1 (elim (first_or_later e j port ports o from) [
            | inl (automatic, is) ↦
                inl
                  (here.1 (ok-injective auto true (sym r ∙ Automatic→removes e port automatic), is))
            | inr next ↦ inr (later.1 next)
          ]),
        )

  -- If the patch of a Service with a list of ports is found, then it consists of the removals of
  -- the node ports of the automatic ports, each under the index of its port: an operation is in it
  -- exactly if it is one of them.
  pub get_node_port_patch-Among :
      (u : Members) (ports : Elements) (e : Explicit) (ops : List Operation) (o : Operation)
      → ports_of u ≡ some ports
      → explicit_ports api u ≡ ok e
      → get_node_port_patch api u ≡ ok ops
      → Among o ops ↔ Removes e ports o
  unfolding get_node_port_patch
  get_node_port_patch-Among u ports e ops o p x h =
      let both =
        remove_ports-Among e 0 ports ops o (sym (rw (p, get_node_port_patch) (rw x refl)) ∙ h) in
      (
        λ among.
            let (i, port, found, auto, is) = both.0 among in
            (
              i,
              port,
              found,
              auto,
              is ∙ ap (λ n. remove (node_port_path n)) (let q : 0 + i ≡ i = omega arith in q),
            ),
        λ (i, port, found, auto, is). both.1 (
          i,
          port,
          found,
          auto,
          is ∙ ap (λ n. remove (node_port_path n)) (let q : i ≡ 0 + i = omega arith in q),
        ),
      )
