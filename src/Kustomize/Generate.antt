-- ===== src/Kustomize/Generate.antt =====
-- kustomization.go: the value that `GenerateKustomization` hands to the YAML encoder.
use mathlib.Core.List.{Perm}
use crane_lib.Base.{String, List, ◌≡◌}
use crane_lib.Sorting.{sort_by, sort_strings}
use crane_lib.Sorting.Laws.{IsSorted, sort_by-IsSorted, sort_by-perm, sort_strings-eq_of_perm}

pub record PatchTarget : Type 0 where
  pub group : String
  pub version : String
  pub kind : String
  pub name : String
  pub namespace : String

pub record Patch : Type 0 where
  pub path : String
  pub target : PatchTarget

pub record KustomizationFile : Type 0 where
  pub api_version : String
  pub kind : String
  pub resources : List String
  pub patches : List Patch

unfoldable pub new_patch : (path group version kind name namespace : String) → Patch
new_patch path group version kind name namespace = record {
  path = path;
  target = record {
    group = group;
    version = version;
    kind = kind;
    name = name;
    namespace = namespace;
  };
}

unfoldable pub generate_kustomization : List String → List Patch → KustomizationFile
generate_kustomization resources patches = record {
  api_version = "kustomize.config.k8s.io/v1beta1";
  kind = "Kustomization";
  resources = sort_strings resources;
  patches = sort_by (λ p. p.path) patches;
}

-- The file lists the given resources and patches, no more and no less, each in ascending order, the
-- patches by their path.
pub generate_kustomization_lem :
    (resources : List String) (patches : List Patch)
    → let file = generate_kustomization resources patches in
      Perm file.resources resources
      × IsSorted (λ s. s) file.resources
      × Perm file.patches patches
      × IsSorted (λ p. p.path) file.patches
unfolding generate_kustomization sort_strings
generate_kustomization_lem resources patches = (
  sort_by-perm (λ s. s) resources,
  sort_by-IsSorted (λ s. s) resources,
  sort_by-perm (λ p. p.path) patches,
  sort_by-IsSorted (λ p. p.path) patches,
)

-- The file does not depend on the order in which the resources are given.
pub generate_kustomization_deterministic :
    (first second : List String) (patches : List Patch)
    → Perm first second
    → generate_kustomization first patches ≡ generate_kustomization second patches
unfolding generate_kustomization
generate_kustomization_deterministic first second patches same =
    rw (sort_strings-eq_of_perm first second same)
