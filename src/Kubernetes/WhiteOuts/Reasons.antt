-- ===== src/Kubernetes/WhiteOuts/Reasons.antt =====
-- The reasons for which a resource is left out.
use crane_lib.Base.{◌<◌, ltb, ltb→lt, String, true, false, some, [], ◌∷◌}
use crane_lib.Base.{string_eq, ◌==◌, ==→eq, ==_refl, ◌≡◌, ◌≢◌, refl, arith, inl, inr, ◌&&◌}
use crane_lib.Base.{◌↔◌, Bool-cases, sym, ◌∙◌, ap}
use crane_lib.Base.Dict
use crane_lib.Json.{Members}
use crane_lib.Kubernetes.{
  GroupKind, same_group_kind, gks_to_whiteout, secret_gk, service_account_gk, config_map_gk,
  extensions_group, Api, present,
}
use crane_lib.Kubernetes.Options.{Options}
use crane_lib.Kubernetes.WhiteOuts.{
  group_kind_in_list, is_account_type, service_account_annotation, white_out_by_kind,
  generated_by_service_account, generated_secret, default_service_account, default_account_secret,
  default_ca_bundle, get_white_outs,
}
use crane_lib.Kubernetes.WhiteOuts.Kinds.{
  Listed, Listed→group_kind_in_list, List-cases, OneOf, OneOf→chain, chain→OneOf, else_true,
  group_kind_in_list→Listed, if_true, length-not_empty, nested_true, not_in_list, option_true,
  same_group_kind_refl, same_group_kind→eq,
}

-- The reasons for which getWhiteOuts leaves a resource out. The last five hold only without
-- disable-whiteout-owned, also those that have nothing to do with an owner.
pub data Reason (api : Api) (k : Options) (obj : Members) : Type 0 where
  not_included :
      k.include_only ≢ [] → ¬ (Listed (api.group_kind obj) k.include_only) → Reason api k obj
  never_kept : k.include_only ≡ [] → Listed (api.group_kind obj) gks_to_whiteout → Reason api k obj
  extra_white_out :
      k.include_only ≡ [] → Listed (api.group_kind obj) k.extra_whiteouts → Reason api k obj
  generated :
      (secret_type account : String)
      → api.group_kind obj ≡ secret_gk
      → api.nested_string obj ("type" ∷ []) ≡ present secret_type
      → is_account_type secret_type ≡ true
      → Dict.lookup service_account_annotation (api.annotations obj) ≡ some account
      → Reason api k obj
  has_owner : k.disable_whiteout_owned ≡ false → 0 < api.owner_references obj → Reason api k obj
  default_account :
      k.disable_whiteout_owned ≡ false
      → k.strip_default_rbac ≡ true
      → api.group_kind obj ≡ service_account_gk
      → api.name obj ≡ "default"
      → Reason api k obj
  default_secret :
      k.disable_whiteout_owned ≡ false
      → k.strip_default_rbac ≡ true
      → api.group_kind obj ≡ secret_gk
      → Dict.lookup service_account_annotation (api.annotations obj) ≡ some "default"
      → Reason api k obj
  ca_bundle :
      k.disable_whiteout_owned ≡ false
      → k.strip_default_ca_bundle ≡ true
      → api.group_kind obj ≡ config_map_gk
      → api.name obj ≡ "kube-root-ca.crt"
      → Reason api k obj
  extensions :
      k.disable_whiteout_owned ≡ false
      → (api.group_kind obj).group ≡ extensions_group
      → Reason api k obj

module _ (api : Api) (k : Options) (obj : Members) where
  abbrev Tests : Type 0
  Tests =
      OneOf (white_out_by_kind api k obj) (generated_secret api k obj) k.disable_whiteout_owned
        (ltb 0 (api.owner_references obj)) (default_service_account api k obj)
        (default_account_secret api k obj) (default_ca_bundle api k obj)
        ((api.group_kind obj).group == extensions_group)

  kind_is : (g : GroupKind) → api.group_kind obj ≡ g → same_group_kind (api.group_kind obj) g ≡ true
  kind_is g e = rw e (same_group_kind_refl g)

  from_extra :
      k.include_only ≡ []
      → Listed (api.group_kind obj) k.extra_whiteouts
      → white_out_by_kind api k obj ≡ true
  unfolding white_out_by_kind
  from_extra none_only within = rw none_only (else_true _ _ (Listed→group_kind_in_list _ _ within))

  from_generated :
      (secret_type account : String)
      → api.group_kind obj ≡ secret_gk
      → api.nested_string obj ("type" ∷ []) ≡ present secret_type
      → is_account_type secret_type ≡ true
      → Dict.lookup service_account_annotation (api.annotations obj) ≡ some account
      → generated_secret api k obj ≡ true
  unfolding generated_secret
  from_generated t account gk ty is sa =
      rw (kind_is secret_gk gk, ty, is)
        (unfold generated_by_service_account in rw (sa, generated_by_service_account) refl)

  from_account :
      k.strip_default_rbac ≡ true
      → api.group_kind obj ≡ service_account_gk
      → api.name obj ≡ "default"
      → default_service_account api k obj ≡ true
  unfolding default_service_account
  from_account strip gk name =
      rw (kind_is service_account_gk gk, strip, name) (rw (==_refl {A = String} "default") refl)

  from_secret :
      k.strip_default_rbac ≡ true
      → api.group_kind obj ≡ secret_gk
      → Dict.lookup service_account_annotation (api.annotations obj) ≡ some "default"
      → default_account_secret api k obj ≡ true
  unfolding default_account_secret
  from_secret strip gk sa =
      rw (kind_is secret_gk gk, strip, sa) (rw (==_refl {A = String} "default") refl)

  from_bundle :
      k.strip_default_ca_bundle ≡ true
      → api.group_kind obj ≡ config_map_gk
      → api.name obj ≡ "kube-root-ca.crt"
      → default_ca_bundle api k obj ≡ true
  unfolding default_ca_bundle
  from_bundle strip gk name =
      rw (kind_is config_map_gk gk, strip, name) (rw (==_refl {A = String} "kube-root-ca.crt") refl)

  Reason→Tests : Reason api k obj → Tests
  Reason→Tests (not_included some_only out) = inl (
      unfold white_out_by_kind in
      rw (length-not_empty k.include_only some_only, not_in_list _ _ out) refl)
  Reason→Tests (never_kept none_only within) =
      inl (unfold white_out_by_kind in rw (none_only, Listed→group_kind_in_list _ _ within) refl)
  Reason→Tests (extra_white_out none_only within) = inl (from_extra none_only within)
  Reason→Tests (generated t account gk ty is sa) = inr (inl (from_generated t account gk ty is sa))
  Reason→Tests (has_owner h lt) = inr (inr (h, inl (ground arith)))
  Reason→Tests (default_account h strip gk name) =
      inr (inr (h, inr (inl (from_account strip gk name))))
  Reason→Tests (default_secret h strip gk sa) =
      inr (inr (h, inr (inr (inl (from_secret strip gk sa)))))
  Reason→Tests (ca_bundle h strip gk name) =
      inr (inr (h, inr (inr (inr (inl (from_bundle strip gk name))))))
  Reason→Tests (extensions h group) =
      inr (inr (h, inr (inr (inr (inr (rw group (==_refl {A = String} "extensions")))))))

  included :
      k.include_only ≢ []
      → Listed (api.group_kind obj) k.include_only
      → white_out_by_kind api k obj ≡ false
  unfolding white_out_by_kind
  included some_only within =
      rw (length-not_empty k.include_only some_only, Listed→group_kind_in_list _ _ within) refl

  of_kind : white_out_by_kind api k obj ≡ true → Reason api k obj
  unfolding white_out_by_kind
  of_kind h = elim (List-cases k.include_only) [
    | inl e ↦ elim (Bool-cases (group_kind_in_list (api.group_kind obj) gks_to_whiteout)) [
      | inl within ↦
          never_kept e (group_kind_in_list→Listed (api.group_kind obj) gks_to_whiteout within)
      | inr out ↦ extra_white_out e (group_kind_in_list→Listed _ _ (sym (rw (e, out) refl) ∙ h))
    ]
    | inr some_only ↦
        not_included some_only (λ within. absurd (cc (sym (included some_only within) ∙ h)))
  ]

  of_generated : generated_secret api k obj ≡ true → Reason api k obj
  unfolding generated_secret generated_by_service_account
  of_generated h =
      let (gk, inner) = if_true _ _ h in
      let (t, ty, rest) = nested_true _ _ inner in
      let (is, found) = if_true _ _ rest in
      let (account, sa, _) = option_true _ (λ account. true) found in
      generated t account (same_group_kind→eq _ _ gk) ty is sa

  of_account :
      k.disable_whiteout_owned ≡ false → default_service_account api k obj ≡ true → Reason api k obj
  unfolding default_service_account
  of_account d h =
      default_account d (ground arith) (same_group_kind→eq _ _ (ground arith))
        (==→eq _ _ (ground arith))

  of_secret :
      k.disable_whiteout_owned ≡ false → default_account_secret api k obj ≡ true → Reason api k obj
  unfolding default_account_secret
  of_secret d h =
      let (both, inner) =
        if_true (same_group_kind (api.group_kind obj) secret_gk && k.strip_default_rbac) _ h in
      let (account, sa, default) = option_true _ (λ account. account == "default") inner in
      default_secret d (ground arith) (same_group_kind→eq _ _ (ground arith))
        (sa ∙ ap some (==→eq _ _ default))

  of_bundle :
      k.disable_whiteout_owned ≡ false → default_ca_bundle api k obj ≡ true → Reason api k obj
  unfolding default_ca_bundle
  of_bundle d h =
      ca_bundle d (ground arith) (same_group_kind→eq _ _ (ground arith)) (==→eq _ _ (ground arith))

  Tests→Reason : Tests → Reason api k obj
  Tests→Reason (inl h) = of_kind h
  Tests→Reason (inr (inl h)) = of_generated h
  Tests→Reason (inr (inr (d, inl h))) = has_owner d (ltb→lt _ _ h)
  Tests→Reason (inr (inr (d, inr (inl h)))) = of_account d h
  Tests→Reason (inr (inr (d, inr (inr (inl h))))) = of_secret d h
  Tests→Reason (inr (inr (d, inr (inr (inr (inl h)))))) = of_bundle d h
  Tests→Reason (inr (inr (d, inr (inr (inr (inr h)))))) = extensions d (==→eq _ _ h)

  -- A resource is left out exactly if it is not included, or nothing is said on what to include and
  -- its kind is one of those that are never kept or of the extra ones, or it is a generated secret of
  -- a service account, or, without disable-whiteout-owned, it has an owner, is the default service
  -- account or a secret of it with strip-default-rbac, is the CA bundle with strip-default-cabundle,
  -- or is of the group extensions.
  pub get_white_outs_iff : (get_white_outs api k obj ≡ true) ↔ Reason api k obj
  unfolding get_white_outs
  get_white_outs_iff = (
    λ h. Tests→Reason (chain→OneOf _ _ _ _ _ _ _ _ h),
    λ reason. OneOf→chain _ _ _ _ _ _ _ _ (Reason→Tests reason),
  )
