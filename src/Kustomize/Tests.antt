-- ===== src/Kustomize/Tests.antt =====
-- The names of files and kustomization.yaml, on small inputs.
use crane_lib.Base.{◌≡◌, arith}
use crane_lib.Strings.Trim.{IsTrimmed}
use crane_lib.Kustomize.Naming.{
  to_lower, get_resource_type_filename, parse_resource_type_filename, sanitize_filename,
  unsafe_characters,
}
use crane_lib.Kustomize.Naming.RoundTrip.{parse-get_resource_type_filename}
use crane_lib.Kustomize.Naming.Safe.{LacksAll, sanitize_filename_safe}
use crane_lib.Kustomize.Serializer.{sanitize_component, component_characters}
use crane_lib.Kustomize.Serializer.Laws.{sanitize_component-Lacks}

parse-get_resource_type_filename_example :
    parse_resource_type_filename (get_resource_type_filename "Route" "route.openshift.io")
    ≡ (to_lower "Route", "route.openshift.io")
parse-get_resource_type_filename_example =
    parse-get_resource_type_filename "Route" "route.openshift.io" (omega arith)

sanitize_filename_safe_example :
    LacksAll unsafe_characters (sanitize_filename " a/b:c. ")
    × IsTrimmed ". " (sanitize_filename " a/b:c. ")
sanitize_filename_safe_example = sanitize_filename_safe " a/b:c. "

sanitize_component-Lacks_example : LacksAll component_characters (sanitize_component "system:a b")
sanitize_component-Lacks_example = sanitize_component-Lacks "system:a b"
