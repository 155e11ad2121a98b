-- ===== src/Meta.antt =====
-- state_transfer/meta: the mutations of mutations.go, whose interfaces are in interfaces.go, and
-- labels.go. A nil pointer is `none`; a nil map is the empty one.
use Prim.Native.String.{◌++◌ as ◌<>◌}
use crane_lib.Base.{String, Option, none, some, List, [], ◌∷◌, ◌++◌}
use crane_lib.Base.Dict.{Dict}

abbrev pub mutation_type_merge : String
mutation_type_merge = "merge"

abbrev pub mutation_type_replace : String
mutation_type_replace = "replace"

-- The fields of Kubernetes' types that the mutations read; `S` stands for the security contexts,
-- `R` for the resource requirements, `O` for the owner references.
pub record PodSpec (S : Type 0) : Type 0 where
  pub security_context : Option S
  pub node_selector : Dict String String
  pub node_name : String

pub record Container (S R : Type 0) : Type 0 where
  pub name : String
  pub security_context : Option S
  pub resources : R

pub record ObjectMeta (O : Type 0) : Type 0 where
  pub labels : Dict String String
  pub annotations : Dict String String
  pub name : String
  pub owner_references : List O

-- `podmutation`, `containermutation` and `metamutation`
pub record Mutation (T : Type 0) : Type 0 where
  pub t : String
  pub target : Option T

-- `NewPodSpecMutation`, `NewContainerMutation` and `NewObjectMetaMutation`
unfoldable pub new_mutation : {T : Type 0} → Option T → String → Mutation T
new_mutation spec typ = record { t = typ; target = spec }

-- A field of the target, if there is a target.
unfoldable pub field_of : {T A : Type 0} → (T → A) → Mutation T → Option A
field_of read m = elim m.target [ none ↦ none | some p ↦ some (read p) ]

-- A field that is itself nil or empty where there is no target.
unfoldable pub field_or : {T A : Type 0} → A → (T → A) → Mutation T → A
field_or default read m = elim m.target [ none ↦ default | some p ↦ read p ]

module _ {S : Type 0} where
  unfoldable pub pod_security_context : Mutation (PodSpec S) → Option S
  unfolding field_or
  pod_security_context m = field_or none (λ p. p.security_context) m

  unfoldable pub node_selector : Mutation (PodSpec S) → Dict String String
  unfolding field_or
  node_selector m = field_or [] (λ p. p.node_selector) m

  unfoldable pub node_name : Mutation (PodSpec S) → Option String
  unfolding field_of
  node_name m = field_of (λ p. p.node_name) m

module _ {S R : Type 0} where
  unfoldable pub container_security_context : Mutation (Container S R) → Option S
  unfolding field_or
  container_security_context m = field_or none (λ c. c.security_context) m

  unfoldable pub container_resources : Mutation (Container S R) → Option R
  unfolding field_of
  container_resources m = field_of (λ c. c.resources) m

  unfoldable pub container_name : Mutation (Container S R) → Option String
  unfolding field_of
  container_name m = field_of (λ c. c.name) m

module _ {O : Type 0} where
  unfoldable pub meta_labels : Mutation (ObjectMeta O) → Dict String String
  unfolding field_or
  meta_labels m = field_or [] (λ p. p.labels) m

  unfoldable pub meta_annotations : Mutation (ObjectMeta O) → Dict String String
  unfolding field_or
  meta_annotations m = field_or [] (λ p. p.annotations) m

  unfoldable pub meta_name : Mutation (ObjectMeta O) → Option String
  unfolding field_of
  meta_name m = field_of (λ p. p.name) m

  unfoldable pub meta_owner_references : Mutation (ObjectMeta O) → List O
  unfolding field_or
  meta_owner_references m = field_or [] (λ p. p.owner_references) m

-- The error messages of `ValidateLabels`, one entry for each error. `name_errors` and
-- `value_errors` are validation.IsQualifiedName and validation.IsValidLabelValue.
module _ (name_errors value_errors : String → List String) where
  label_errors : String → String → List String
  label_errors key val =
      elim (name_errors key) [
        | [] ↦ []
        | e ∷ errs ↦ ("label key " <> (key <> " is not a valid qualified name")) ∷ []
      ]
      ++ elim (value_errors val) [
        | [] ↦ []
        | e ∷ errs ↦ ("label value " <> (val <> (" for key " <> (key <> " is not valid")))) ∷ []
      ]

  unfoldable pub validate_labels : Dict String String → List String
  unfolding label_errors
  validate_labels [] = []
  validate_labels ((key, val) ∷ labels) = label_errors key val ++ validate_labels labels
