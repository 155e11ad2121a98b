-- ===== src/Kustomize/Serializer/Laws.antt =====
-- The name of a patch file stays in its directory.
use Prim.Native.String.{◌++◌ as ◌<>◌}
use crane_lib.Base.{String, ◌==◌, string_eq, arith}
use crane_lib.Base.{Bool-cases, inl, inr}
use crane_lib.Strings.Laws.{Lacks, Lacks-append}
use crane_lib.Kustomize.Naming.Safe.{LacksAll, dash_all-Lacks}
use crane_lib.Kustomize.Serializer.{
  sanitize_component, component_characters, generate_patch_filename,
}
use crane_lib.Kustomize.Serializer.{tail_of}

-- A sanitised component holds none of the ten characters.
pub sanitize_component-Lacks : (s : String) → LacksAll component_characters (sanitize_component s)
unfolding sanitize_component
sanitize_component-Lacks s = dash_all-Lacks component_characters s (omega arith)

no_slash : (s : String) → Lacks b'/' (sanitize_component s)
no_slash s = (sanitize_component-Lacks s).0

beside : (s t : String) → Lacks b'/' s → Lacks b'/' t → Lacks b'/' (s <> t)
beside s t h k = Lacks-append b'/' s t h k

tail_of-Lacks :
    (version kind name : String)
    → Lacks b'/' version
    → Lacks b'/' kind
    → Lacks b'/' name
    → Lacks b'/' (tail_of version kind name)
tail_of-Lacks version kind name v k n = beside version _ v (
    beside "--" _ (omega arith)
      (beside kind _ k (beside "--" _ (omega arith) (beside name ".patch.yaml" n (omega arith)))))

-- The name of a patch file holds no path separator, whatever the resource is called, if its
-- version holds none. The version is the one component that is not sanitised.
pub generate_patch_filename-Lacks :
    (group version kind name namespace : String)
    → Lacks b'/' version
    → Lacks b'/' (generate_patch_filename group version kind name namespace)
unfolding generate_patch_filename
generate_patch_filename-Lacks group version kind name namespace v =
    let t = tail_of-Lacks version _ _ v (no_slash kind) (no_slash name) in
    let g = beside _ _ (no_slash group) (beside "-" _ (omega arith) t) in
    let m = no_slash namespace in
    elim (Bool-cases (namespace == "")) [
      | inl cluster ↦ elim (Bool-cases (group == "")) [
        | inl core ↦ rw (cluster, core) t
        | inr grouped ↦ rw (cluster, grouped) g
      ]
      | inr spaced ↦ elim (Bool-cases (group == "")) [
        | inl core ↦ rw (spaced, core) (beside _ _ m (beside "--" _ (omega arith) t))
        | inr grouped ↦ rw (spaced, grouped) (beside _ _ m (beside "--" _ (omega arith) g))
      ]
    ]
