-- ===== src/Kubernetes/Options.antt =====
-- kubernetes.go: the plugin's options and `setOptionalFields`, which reads them from the extras of
-- a request. The plugin keeps them from one request to the next.
pub mod Laws
use crane_lib.Base.{String, Bool, true, false, none, some, List, [], ◌∷◌, map, Result, ok, err}
use crane_lib.Base.{◌≡◌, refl, ap, ◌∙◌, arith, Bool-cases, inl, inr, All}
use crane_lib.Base.{panic, ◌==◌, string_eq, if◌then◌else◌}
use crane_lib.Base.Dict
use crane_lib.Base.Dict.{Dict}
use crane_lib.Strconv.{parse_bool}
use crane_lib.Transform.OptionalFields.{
  parse_optional_field_slice_val, parse_optional_field_map_val,
}
use crane_lib.Transform.Util.{process_pvc_map}
use crane_lib.Kubernetes.{GroupKind}

abbrev pub add_annotations_flag : String
add_annotations_flag = "add-annotations"

abbrev pub remove_annotations_flag : String
remove_annotations_flag = "remove-annotations"

abbrev pub registry_replacement_flag : String
registry_replacement_flag = "registry-replacement"

abbrev pub extra_whiteouts_flag : String
extra_whiteouts_flag = "extra-whiteouts"

abbrev pub include_only_flag : String
include_only_flag = "include-only"

abbrev pub disable_whiteout_owned_flag : String
disable_whiteout_owned_flag = "disable-whiteout-owned"

abbrev pub strip_default_rbac_flag : String
strip_default_rbac_flag = "strip-default-rbac"

abbrev pub strip_default_ca_bundle_flag : String
strip_default_ca_bundle_flag = "strip-default-cabundle"

abbrev pub pvc_rename_map_flag : String
pvc_rename_map_flag = "pvc-rename-map"

-- `KubernetesTransformPlugin`
pub record Options : Type 0 where
  pub add_annotations : Dict String String
  pub remove_annotations : List String
  pub registry_replacement : Dict String String
  pub disable_whiteout_owned : Bool
  pub extra_whiteouts : List GroupKind
  pub include_only : List GroupKind
  pub strip_default_rbac : Bool
  pub strip_default_ca_bundle : Bool
  pub pvc_rename_map : Dict String String

-- transform/plugin.go
pub record OptionalField : Type 0 where
  pub flag_name : String
  pub help : String
  pub example : String

pub record PluginMetadata : Type 0 where
  pub name : String
  pub version : String
  pub request_version : List String
  pub response_version : List String
  pub optional_fields : List OptionalField

-- `Metadata`. The version of the program is set when it is built.
unfoldable pub metadata : String → PluginMetadata
metadata version = record {
  name = "KubernetesPlugin";
  version = version;
  request_version = "v1" ∷ [];
  response_version = "v1" ∷ [];
  optional_fields =
      record {
        flag_name = add_annotations_flag;
        help = "Annotations to add to each resource";
        example = "annotation1=value1,annotation2=value2";
      }
      ∷ record {
        flag_name = registry_replacement_flag;
        help =
            "Map of image registry paths to swap on transform, in the format original-registry1=target-registry1,original-registry2=target-registry2...";
        example =
            "docker-registry.default.svc:5000=image-registry.openshift-image-registry.svc:5000,docker.io/foo=quay.io/bar";
      }
      ∷ record {
        flag_name = remove_annotations_flag;
        help = "Annotations to remove";
        example = "annotation1,annotation2";
      }
      ∷ record {
        flag_name = disable_whiteout_owned_flag;
        help = "Disable whiting out owned pods and pod template resources";
        example = "true";
      }
      ∷ record {
        flag_name = extra_whiteouts_flag;
        help =
            "Additional resources to whiteout specified as a comma-separated list of GroupKind strings.";
        example = "Deployment.apps,Service,Route.route.openshift.io";
      }
      ∷ record {
        flag_name = include_only_flag;
        help =
            "If specified, every resource not listed here will be a whiteout. extra-whiteouts is ignored when include-only is specified. Specified as a comma-separated list of GroupKind strings.";
        example = "Deployment.apps,Service,Route.route.openshift.io";
      }
      ∷ record {
        flag_name = strip_default_rbac_flag;
        help = "Whether to strip default RBAC including default serviceAccount (default: true)";
        example = "true";
      }
      ∷ record {
        flag_name = strip_default_ca_bundle_flag;
        help = "Whether to strip default CA Bundle (default: true)";
        example = "true";
      }
      ∷ record {
        flag_name = pvc_rename_map_flag;
        help = "A comma-separated list of colon separated pvc renames.";
        example = "old-pvc1-name:new-pvc1-name,old-pvc2-name:new-pvc2-name";
      }
      ∷ [];
}

-- `extras[flag]`, where a missing flag reads as the empty text
unfoldable pub extra : String → Dict String String → String
extra flag extras = elim (Dict.lookup flag extras) [ none ↦ "" | some v ↦ v ]

-- `if len(text) > 0 { field = parse(text) }`
unfoldable pub set_unless_empty {ℓ} : {A : Type ℓ} → String → (String → A) → A → A
set_unless_empty text parse old = if text == "" then old else parse text

-- The value of `strconv.ParseBool`, which is false next to an error.
unfoldable pub bool_or_false : String → Bool
bool_or_false s = elim (parse_bool s) [ ok b ↦ b | err e ↦ false | panic ↦ false ]

unfoldable pub with_pvc_rename_map : Dict String String → Options → Options
with_pvc_rename_map pvc_map k = record {
  add_annotations = k.add_annotations;
  remove_annotations = k.remove_annotations;
  registry_replacement = k.registry_replacement;
  disable_whiteout_owned = k.disable_whiteout_owned;
  extra_whiteouts = k.extra_whiteouts;
  include_only = k.include_only;
  strip_default_rbac = k.strip_default_rbac;
  strip_default_ca_bundle = k.strip_default_ca_bundle;
  pvc_rename_map = pvc_map;
}

-- The plugin as it is left, also by an error, and the error.
unfoldable pub finish : Options → Result (Dict String String) → Options × Result {0} Unit
unfolding with_pvc_rename_map
finish k (ok pvc_map) = (with_pvc_rename_map pvc_map k, ok tt)
finish k (err e) = (k, err e)
finish k panic = (k, panic)

-- `parse_group_kind` is schema.ParseGroupKind, `errors_of` is validation.IsDNS1123Subdomain.
module _ (parse_group_kind : String → GroupKind) where
  unfoldable pub parse_group_kind_slice : List String → List GroupKind
  parse_group_kind_slice gk_strings = map parse_group_kind gk_strings

  unfoldable pub group_kinds_of : String → List GroupKind
  unfolding parse_group_kind_slice
  group_kinds_of s = parse_group_kind_slice (parse_optional_field_slice_val s)

  -- The fields but the last one.
  unfoldable pub set_fields : Dict String String → Options → Options
  unfolding extra set_unless_empty
  set_fields extras k = record {
    add_annotations =
        set_unless_empty (extra add_annotations_flag extras) parse_optional_field_map_val
          k.add_annotations;
    remove_annotations =
        set_unless_empty (extra remove_annotations_flag extras) parse_optional_field_slice_val
          k.remove_annotations;
    registry_replacement =
        set_unless_empty (extra registry_replacement_flag extras) parse_optional_field_map_val
          k.registry_replacement;
    disable_whiteout_owned =
        set_unless_empty (extra disable_whiteout_owned_flag extras) bool_or_false
          k.disable_whiteout_owned;
    extra_whiteouts =
        set_unless_empty (extra extra_whiteouts_flag extras) group_kinds_of k.extra_whiteouts;
    include_only = set_unless_empty (extra include_only_flag extras) group_kinds_of k.include_only;
    strip_default_rbac = set_unless_empty (extra strip_default_rbac_flag extras) bool_or_false true;
    strip_default_ca_bundle =
        set_unless_empty (extra strip_default_ca_bundle_flag extras) bool_or_false true;
    pvc_rename_map = k.pvc_rename_map;
  }

module _ (parse_group_kind : String → GroupKind) (errors_of : String → List String) where
  unfoldable pub set_optional_fields : Dict String String → Options → Options × Result {0} Unit
  unfolding set_fields finish extra
  set_optional_fields extras k =
      if extra pvc_rename_map_flag extras == ""
      then (set_fields parse_group_kind extras k, ok tt)
      else finish (set_fields parse_group_kind extras k)
          (process_pvc_map errors_of (extra pvc_rename_map_flag extras))
