-- ===== src/Rsync/Mutations.antt =====
-- rsync.go: `applyPodMutations` and `applyContainerMutations`.
use crane_lib.Base.{true, false, Option, none, some, List, [], ◌∷◌, if◌then◌else◌, string_eq, ◌==◌}
use crane_lib.Base.{◌≡◌, refl, ◌∙◌, Bool-cases, inl, inr}
use crane_lib.Meta.{
  Mutation, mutation_type_replace, PodSpec, Container, pod_security_context, node_selector,
  node_name, container_security_context, container_resources,
}

-- `if new != nil { field = new }`
abbrev pub or_old : {A : Type 0} → Option A → A → A
or_old none old = old
or_old (some new) old = new

abbrev pub or_kept : {A : Type 0} → Option A → Option A → Option A
or_kept none old = old
or_kept (some new) old = some new

module _ {S : Type 0} where
  -- The node selector is replaced also by none.
  unfoldable pub replace_pod : PodSpec S → Mutation (PodSpec S) → PodSpec S
  unfolding pod_security_context node_selector node_name
  replace_pod spec m = record {
    security_context = or_kept (pod_security_context m) spec.security_context;
    node_selector = node_selector m;
    node_name = or_old (node_name m) spec.node_name;
  }

  unfoldable pub apply_pod_mutations : PodSpec S → List (Mutation (PodSpec S)) → PodSpec S
  unfolding replace_pod
  apply_pod_mutations spec [] = spec
  apply_pod_mutations spec (m ∷ ms) =
      if m.t == mutation_type_replace
      then apply_pod_mutations (replace_pod spec m) ms
      else apply_pod_mutations spec ms

module _ {S R : Type 0} where
  unfoldable pub replace_container : Container S R → Mutation (Container S R) → Container S R
  unfolding container_security_context container_resources
  replace_container container m = record {
    name = container.name;
    security_context = or_kept (container_security_context m) container.security_context;
    resources = or_old (container_resources m) container.resources;
  }

  unfoldable pub apply_container_mutations :
      Container S R → List (Mutation (Container S R)) → Container S R
  unfolding replace_container
  apply_container_mutations container [] = container
  apply_container_mutations container (m ∷ ms) =
      if m.t == mutation_type_replace
      then apply_container_mutations (replace_container container m) ms
      else apply_container_mutations container ms

-- The last of the replacing mutations that sets a field, searched from the end.
unfoldable pub last_set : {T A : Type 0} → (Mutation T → Option A) → List (Mutation T) → Option A
last_set read [] = none
last_set read (m ∷ ms) =
    or_kept (last_set read ms) (if m.t == mutation_type_replace then read m else none)

or_kept_assoc : {A : Type 0} (o p d : Option A) → or_kept o (or_kept p d) ≡ or_kept (or_kept o p) d
or_kept_assoc none p d = refl
or_kept_assoc (some a) p d = refl

or_old_assoc :
    {A : Type 0} (o p : Option A) (d : A) → or_old o (or_old p d) ≡ or_old (or_kept o p) d
or_old_assoc none p d = refl
or_old_assoc (some a) p d = refl

or_kept-none : {A : Type 0} (o : Option A) → or_kept o none ≡ o
or_kept-none none = refl
or_kept-none (some a) = refl

module _ {S : Type 0} where
  -- Every field as the last replacing mutation that sets it has it, or as it was. Each replacing
  -- mutation sets the node selector.
  abbrev pub last_pod : PodSpec S → List (Mutation (PodSpec S)) → PodSpec S
  last_pod spec ms = record {
    security_context = or_kept (last_set pod_security_context ms) spec.security_context;
    node_selector = or_old (last_set (λ m. some (node_selector m)) ms) spec.node_selector;
    node_name = or_old (last_set node_name ms) spec.node_name;
  }

  last_pod-replace :
      (spec : PodSpec S) (m : Mutation (PodSpec S)) (ms : List (Mutation (PodSpec S)))
      → (m.t == mutation_type_replace) ≡ true
      → last_pod (replace_pod spec m) ms ≡ last_pod spec (m ∷ ms)
  unfolding replace_pod last_set
  last_pod-replace spec m ms e = rw e (λ i. record {
    security_context =
        or_kept_assoc (last_set pod_security_context ms) (pod_security_context m)
          spec.security_context i;
    node_selector =
        or_old_assoc (last_set (λ m. some (node_selector m)) ms) (some (node_selector m))
          spec.node_selector i;
    node_name = or_old_assoc (last_set node_name ms) (node_name m) spec.node_name i;
  })

  last_pod-skip :
      (spec : PodSpec S) (m : Mutation (PodSpec S)) (ms : List (Mutation (PodSpec S)))
      → (m.t == mutation_type_replace) ≡ false
      → last_pod spec ms ≡ last_pod spec (m ∷ ms)
  unfolding last_set
  last_pod-skip spec m ms e =
      rw
        (
          e,
          or_kept-none (last_set pod_security_context ms),
          or_kept-none (last_set (λ m. some (node_selector m)) ms),
          or_kept-none (last_set node_name ms),
        )
        refl

  apply-replace :
      (spec : PodSpec S) (m : Mutation (PodSpec S)) (ms : List (Mutation (PodSpec S)))
      → (m.t == mutation_type_replace) ≡ true
      → apply_pod_mutations spec (m ∷ ms) ≡ apply_pod_mutations (replace_pod spec m) ms
  unfolding apply_pod_mutations
  apply-replace spec m ms e = rw e refl

  apply-skip :
      (spec : PodSpec S) (m : Mutation (PodSpec S)) (ms : List (Mutation (PodSpec S)))
      → (m.t == mutation_type_replace) ≡ false
      → apply_pod_mutations spec (m ∷ ms) ≡ apply_pod_mutations spec ms
  unfolding apply_pod_mutations
  apply-skip spec m ms e = rw e refl

  -- After the loop every field of the pod is that of the last replacing mutation that sets it, and
  -- is unchanged if there is none.
  pub apply_pod_mutations_lem :
      (spec : PodSpec S) (ms : List (Mutation (PodSpec S)))
      → apply_pod_mutations spec ms ≡ last_pod spec ms
  apply_pod_mutations_lem spec [] = unfold apply_pod_mutations last_set in refl
  apply_pod_mutations_lem spec (m ∷ ms) = elim (Bool-cases (m.t == mutation_type_replace)) [
    | inl e ↦
        apply-replace spec m ms e
        ∙ apply_pod_mutations_lem (replace_pod spec m) ms
        ∙ last_pod-replace spec m ms e
    | inr e ↦ apply-skip spec m ms e ∙ apply_pod_mutations_lem spec ms ∙ last_pod-skip spec m ms e
  ]
