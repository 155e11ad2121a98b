-- ===== src/Kubernetes/WhiteOuts.antt =====
-- kubernetes.go: `getWhiteOuts`, which resources are left out.
mod Kinds
pub mod Reasons
use crane_lib.Base.{
  ℕ, ltb, String, Bool, true, false, ◌&&◌, ◌||◌, not, Option, none, some, List, [], ◌∷◌, length,
}
use crane_lib.Base.{
  string_eq, ◌==◌, if◌then◌else◌, ◌≡◌, refl, arith, ◌⊎◌, inl, inr, ◌↔◌, Bool-cases,
}
use crane_lib.Base.Dict
use crane_lib.Base.Dict.{Dict}
use crane_lib.Json.{Members}
use crane_lib.Kubernetes.{
  GroupKind, same_group_kind, gks_to_whiteout, secret_gk, service_account_gk, config_map_gk,
  extensions_group, Api, Nested, present, absent, mistyped,
}
use crane_lib.Kubernetes.Options.{Options}

abbrev pub service_account_annotation : String
service_account_annotation = "kubernetes.io/service-account.name"

unfoldable pub group_kind_in_list : GroupKind → List GroupKind → Bool
unfolding same_group_kind
group_kind_in_list gk [] = false
group_kind_in_list gk (this_gk ∷ list) =
    if same_group_kind gk this_gk then true else group_kind_in_list gk list

-- The two types of Secrets that Kubernetes makes for a service account.
abbrev pub is_account_type : String → Bool
is_account_type secret_type =
    (secret_type == "kubernetes.io/service-account-token")
    || (secret_type == "kubernetes.io/dockercfg")

module _ (api : Api) (k : Options) (obj : Members) where
  -- The tests on the lists of kinds.
  unfoldable pub white_out_by_kind : Bool
  unfolding group_kind_in_list
  white_out_by_kind =
      if ltb 0 (length k.include_only)
      then not (group_kind_in_list (api.group_kind obj) k.include_only)
      else if group_kind_in_list (api.group_kind obj) gks_to_whiteout
      then true
      else group_kind_in_list (api.group_kind obj) k.extra_whiteouts

  -- Whether the annotation with the name of the service account is there.
  generated_by_service_account : Bool
  generated_by_service_account =
      elim (Dict.lookup service_account_annotation (api.annotations obj)) [
        | none ↦ false
        | some _ ↦ true
      ]

  unfoldable pub generated_secret : Bool
  unfolding generated_by_service_account
  generated_secret =
      if same_group_kind (api.group_kind obj) secret_gk
      then elim (api.nested_string obj ("type" ∷ [])) [
        | present secret_type ↦
            if is_account_type secret_type then generated_by_service_account else false
        | absent ↦ false
        | mistyped e ↦ false
      ]
      else false

  unfoldable pub default_service_account : Bool
  default_service_account =
      same_group_kind (api.group_kind obj) service_account_gk
      && (api.name obj == "default")
      && k.strip_default_rbac

  unfoldable pub default_account_secret : Bool
  default_account_secret =
      if same_group_kind (api.group_kind obj) secret_gk && k.strip_default_rbac
      then elim (Dict.lookup service_account_annotation (api.annotations obj)) [
        | none ↦ false
        | some sa ↦ sa == "default"
      ]
      else false

  unfoldable pub default_ca_bundle : Bool
  default_ca_bundle =
      same_group_kind (api.group_kind obj) config_map_gk
      && (api.name obj == "kube-root-ca.crt")
      && k.strip_default_ca_bundle

  unfoldable pub get_white_outs : Bool
  unfolding white_out_by_kind generated_secret default_service_account default_account_secret
      default_ca_bundle
  get_white_outs =
      if white_out_by_kind
      then true
      else if generated_secret
      then true
      else if k.disable_whiteout_owned
      then false
      else if ltb 0 (api.owner_references obj)
      then true
      else if default_service_account
      then true
      else if default_account_secret
      then true
      else if default_ca_bundle
      then true
      else (api.group_kind obj).group == extensions_group
