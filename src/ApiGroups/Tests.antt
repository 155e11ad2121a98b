-- ===== src/ApiGroups/Tests.antt =====
-- A group of OpenShift, and one of neither kind.
use Prim.Native.String.{◌++◌ as ◌<>◌}
use crane_lib.Base.{String, true, false, contains, ◌≡◌, refl, ◌⊎◌, ◌↔◌, string_eq}
use crane_lib.ApiGroups.{
  builtin_api_groups, is_default_builtin_api_group, is_default_builtin_api_group_iff,
}

is_default_builtin_api_group_iff_example :
    (is_default_builtin_api_group "route.openshift.io" ≡ true) ↔ (
      (contains builtin_api_groups "route.openshift.io" ≡ true)
      ⊎ ((front : String) × ("route.openshift.io" ≡ front <> ".openshift.io")))
is_default_builtin_api_group_iff_example = is_default_builtin_api_group_iff "route.openshift.io"

of_vendor : is_default_builtin_api_group "stable.example.com" ≡ false
unfolding is_default_builtin_api_group string_eq
of_vendor = refl
