-- ===== src/Kubernetes/Options/Laws.antt =====
-- What the options are after some requests, and which flags they depend on.
use crane_lib.Base.{String, List, Result, ok, err}
use crane_lib.Base.{◌≡◌, refl, ap, ◌∙◌, arith, Bool-cases, inl, inr, All}
use crane_lib.Base.{panic, ◌==◌, string_eq}
use crane_lib.Base.Dict
use crane_lib.Base.Dict.{Dict}
use crane_lib.Transform.OptionalFields.{
  parse_optional_field_slice_val, parse_optional_field_map_val,
}
use crane_lib.Kubernetes.{GroupKind}
use crane_lib.Kubernetes.Options.{
  Options, OptionalField, metadata, extra, set_unless_empty, bool_or_false, group_kinds_of,
  set_fields, with_pvc_rename_map, finish, set_optional_fields, add_annotations_flag,
  remove_annotations_flag, registry_replacement_flag, extra_whiteouts_flag, include_only_flag,
  disable_whiteout_owned_flag, pvc_rename_map_flag,
}

extra_same :
    (flag : String) (extras others : Dict String String)
    → Dict.lookup flag extras ≡ Dict.lookup flag others
    → extra flag extras ≡ extra flag others
unfolding extra
extra_same flag extras others h = rw (h, extra) refl

module _ (parse_group_kind : String → GroupKind) (errors_of : String → List String) where
  set_unless_empty_twice {ℓ} :
      {A : Type ℓ} (text : String) (parse : String → A) (old : A)
      → set_unless_empty text parse (set_unless_empty text parse old)
        ≡ set_unless_empty text parse old
  unfolding set_unless_empty
  set_unless_empty_twice text parse old = ground arith

  set_fields_twice :
      (extras m : Dict String String) (k : Options)
      → set_fields parse_group_kind extras
          (with_pvc_rename_map m (set_fields parse_group_kind extras k))
        ≡ with_pvc_rename_map m (set_fields parse_group_kind extras k)
  unfolding set_fields with_pvc_rename_map
  set_fields_twice extras m k = λ i. record {
    add_annotations =
        set_unless_empty_twice (extra add_annotations_flag extras) parse_optional_field_map_val
          k.add_annotations i;
    remove_annotations =
        set_unless_empty_twice (extra remove_annotations_flag extras) parse_optional_field_slice_val
          k.remove_annotations i;
    registry_replacement =
        set_unless_empty_twice (extra registry_replacement_flag extras) parse_optional_field_map_val
          k.registry_replacement i;
    disable_whiteout_owned =
        set_unless_empty_twice (extra disable_whiteout_owned_flag extras) bool_or_false
          k.disable_whiteout_owned i;
    extra_whiteouts =
        set_unless_empty_twice (extra extra_whiteouts_flag extras) (group_kinds_of parse_group_kind)
          k.extra_whiteouts i;
    include_only =
        set_unless_empty_twice (extra include_only_flag extras) (group_kinds_of parse_group_kind)
          k.include_only i;
    strip_default_rbac = (set_fields parse_group_kind extras k).strip_default_rbac;
    strip_default_ca_bundle = (set_fields parse_group_kind extras k).strip_default_ca_bundle;
    pvc_rename_map = m;
  }

  set_fields_again :
      (extras : Dict String String) (k : Options)
      → set_fields parse_group_kind extras (set_fields parse_group_kind extras k)
        ≡ set_fields parse_group_kind extras k
  unfolding set_fields with_pvc_rename_map
  set_fields_again extras k = set_fields_twice extras k.pvc_rename_map k

  finish_twice :
      (extras : Dict String String) (k : Options) (r : Result (Dict String String))
      → finish
          (set_fields parse_group_kind extras (finish (set_fields parse_group_kind extras k) r).0)
          r
        ≡ finish (set_fields parse_group_kind extras k) r
  unfolding finish
  finish_twice extras k (ok m) =
      ap (λ x. (with_pvc_rename_map m x, ok tt)) (set_fields_twice extras m k)
      ∙ unfold with_pvc_rename_map in refl
  finish_twice extras k (err e) = ap (λ x. (x, err e)) (set_fields_again extras k)
  finish_twice extras k panic = ap (λ x. (x, panic)) (set_fields_again extras k)

  -- Reading the same extras again, for the next resource, gives the same error or none, and leaves
  -- the plugin as it is.
  pub set_optional_fields_twice :
      (extras : Dict String String) (k : Options)
      → set_optional_fields parse_group_kind errors_of extras
          (set_optional_fields parse_group_kind errors_of extras k).0
        ≡ set_optional_fields parse_group_kind errors_of extras k
  unfolding set_optional_fields
  set_optional_fields_twice extras k = elim (Bool-cases (extra pvc_rename_map_flag extras == "")) [
    | inl e ↦ rw (e, set_optional_fields) (ap (λ x. (x, ok tt)) (set_fields_again extras k))
    | inr e ↦ rw (e, set_optional_fields) (finish_twice extras k _)
  ]

  -- If two requests agree on the nine documented flags, then they leave the plugin alike.
  pub set_optional_fields_documented :
      (version : String) (extras others : Dict String String) (k : Options)
      → All
          (λ (o : OptionalField). Dict.lookup o.flag_name extras ≡ Dict.lookup o.flag_name others)
          (metadata version).optional_fields
      → set_optional_fields parse_group_kind errors_of extras k
        ≡ set_optional_fields parse_group_kind errors_of others k
  unfolding set_optional_fields set_fields metadata
  set_optional_fields_documented version extras others k h =
      let (e1, (e2, (e3, (e4, (e5, (e6, (e7, (e8, (e9, _))))))))) = h in
      rw
        (
          extra_same _ extras others e1,
          extra_same _ extras others e2,
          extra_same _ extras others e3,
          extra_same _ extras others e4,
          extra_same _ extras others e5,
          extra_same _ extras others e6,
          extra_same _ extras others e7,
          extra_same _ extras others e8,
          extra_same _ extras others e9,
        )
        refl
