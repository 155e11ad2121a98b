-- ===== src/Kustomize/Serializer.antt =====
-- serializer.go: the file of a patch. `SerializePatchToYAML` is left out: it copies the fields that
-- the json-patch library reads to those that the YAML library writes.
pub mod Laws
use Prim.Native.String.{◌++◌ as ◌<>◌}
use crane_lib.Base.{ℕ, String, Bool, true, false, List, [], ◌∷◌, if◌then◌else◌, ◌==◌, string_eq}
use crane_lib.Kustomize.Naming.{dash_all}

abbrev pub component_characters : List ℕ
component_characters = b'/' ∷ b'\\' ∷ b':' ∷ b'*' ∷ b'?' ∷ 0x22 ∷ b'<' ∷ b'>' ∷ b'|' ∷ b' ' ∷ []

unfoldable pub sanitize_component : String → String
unfolding dash_all
sanitize_component s = dash_all component_characters s

-- fmt.Sprintf with "%s--%s--%s.patch.yaml"
abbrev tail_of : (version kind name : String) → String
tail_of version kind name = version <> ("--" <> (kind <> ("--" <> (name <> ".patch.yaml"))))

unfoldable pub generate_patch_filename : (group version kind name namespace : String) → String
generate_patch_filename group version kind name namespace =
    let k = sanitize_component kind in
    let n = sanitize_component name in
    let ns = sanitize_component namespace in
    let g = sanitize_component group in
    if namespace == ""
    then if group == "" then tail_of version k n else g <> ("-" <> tail_of version k n)
    else if group == ""
    then ns <> ("--" <> tail_of version k n)
    else ns <> ("--" <> (g <> ("-" <> tail_of version k n)))
