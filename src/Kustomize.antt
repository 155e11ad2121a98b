-- ===== src/Kustomize.antt =====
-- transform/kustomize: the names of the files of a stage, and kustomization.yaml. The YAML encoder
-- is not part of this repository and is left out: `generate_kustomization` gives
-- the value that is handed to it.
pub mod Naming
pub mod Generate
mod Tests
pub mod Serializer
