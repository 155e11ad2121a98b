-- ===== src/Rsync/Apply/Laws.antt =====
-- What is left after `Apply`.
use crane_lib.Base.{
  String, not, Option, none, some, List, [], ◌∷◌, All, keep, append-nil, append_assoc,
}
use crane_lib.Base.{
  ◌≡◌, refl, ap, ◌∙◌, sym, ◌↔◌, subst, Option-cases, Bool-cases, inl, inr, string_eq, ◌==◌,
}
use crane_lib.Meta.{new_mutation, mutation_type_replace}
use crane_lib.Rsync.{TransferOptions, Aggregate}
use crane_lib.Rsync.Aliasing.{Growth, source_list, append_source_lem, append_destination_lem}
use crane_lib.Rsync.Apply.{
  TransferOption, archive_files, preserve_ownership, standard_progress, delete_destination,
  with_source_pod_labels, with_destination_pod_labels, with_owner_references,
  source_pod_spec_mutation, destination_pod_spec_mutation, source_container_mutation,
  destination_container_mutation, username, password, rsync_server_image, rsync_client_image,
  exclude_files, munge_symlinks,
}
use crane_lib.Rsync.Apply.{
  set_option, option_error, apply_to, apply_each, apply, some_incomplete, archive, own,
  show_progress, delete_as, exclude,
}
use crane_lib.Rsync.Command.Errors.{NoErrors, IsAggregate}
use crane_lib.Rsync.Apply.Settings.{
  Settings, IsAccepted, all_given, as_container, as_excluded, as_pod, asked, settings, IsValid,
}
use crane_lib.Rsync.Apply.Validity.{some_incomplete_iff, label_error_iff}

module _ {S R : Type 0} where
  module _ (grow : Growth) where
    -- An option that is set leaves what the rest asks for, if it is asked for first.
    step :
        (opt : TransferOption S R) (opts : List (TransferOption S R)) (t : TransferOptions S R)
        → IsValid t
        → (asked opts (settings (set_option grow opt t)) ≡ asked (opt ∷ opts) (settings t))
          × IsValid (set_option grow opt t)
    unfolding set_option archive own show_progress delete_as exclude
    step (archive_files a) opts t valid = (refl, valid)
    step (preserve_ownership a) opts t valid = (refl, valid)
    step (standard_progress a) opts t valid = (refl, valid)
    step (delete_destination a) opts t valid = (refl, valid)
    step (with_source_pod_labels w) opts t valid = (refl, valid)
    step (with_destination_pod_labels w) opts t valid = (refl, valid)
    step (with_owner_references w) opts t valid = (refl, valid)
    step (username u) opts t valid = (refl, valid)
    step (password u) opts t valid = (refl, valid)
    step (rsync_server_image u) opts t valid = (refl, valid)
    step (rsync_client_image u) opts t valid = (refl, valid)
    step (munge_symlinks u) opts t valid = (refl, valid)
    step (exclude_files e) opts t valid = (
      rw
          (append_assoc t.command_options.exclude_files (keep (λ f. not (f == "")) e)
            (all_given as_excluded opts))
          refl,
      valid,
    )
    step (source_pod_spec_mutation p) opts t (pods, containers) =
        let m = new_mutation p mutation_type_replace in
        let (is, next) = append_source_lem grow m t.pod_mutations pods in
        (
          rw (is, append_assoc (source_list t.pod_mutations) (m ∷ []) (all_given as_pod opts)) refl,
          (next, containers),
        )
    step (destination_pod_spec_mutation p) opts t (pods, containers) =
        let (is, next, _) =
          append_destination_lem (new_mutation p mutation_type_replace) t.pod_mutations pods in
        (rw is refl, (next, containers))
    step (source_container_mutation c) opts t (pods, containers) =
        let m = new_mutation c mutation_type_replace in
        let (is, next) = append_source_lem grow m t.container_mutations containers in
        (
          rw
              (
                is,
                append_assoc (source_list t.container_mutations) (m ∷ [])
                    (all_given as_container opts),
              )
              refl,
          (pods, next),
        )
    step (destination_container_mutation c) opts t (pods, containers) =
        let (is, next, _) =
          append_destination_lem (new_mutation c mutation_type_replace) t.container_mutations
            containers in
        (rw is refl, (pods, next))

  module _ (name_errors value_errors : String → List String) (aggregate : Aggregate) where
    -- An option that is refused asks for none of the settings.
    frame :
        (opt : TransferOption S R) (opts : List (TransferOption S R)) (s : Settings S R)
        (m : String)
        → option_error name_errors value_errors aggregate opt ≡ some m
        → asked opts s ≡ asked (opt ∷ opts) s
    unfolding option_error
    frame (with_source_pod_labels w) opts s m e = refl
    frame (with_destination_pod_labels w) opts s m e = refl
    frame (with_owner_references w) opts s m e = refl
    frame (archive_files a) opts s m e = absurd (cc e)
    frame (preserve_ownership a) opts s m e = absurd (cc e)
    frame (standard_progress a) opts s m e = absurd (cc e)
    frame (delete_destination a) opts s m e = absurd (cc e)
    frame (source_pod_spec_mutation p) opts s m e = absurd (cc e)
    frame (destination_pod_spec_mutation p) opts s m e = absurd (cc e)
    frame (source_container_mutation p) opts s m e = absurd (cc e)
    frame (destination_container_mutation p) opts s m e = absurd (cc e)
    frame (username u) opts s m e = absurd (cc e)
    frame (password u) opts s m e = absurd (cc e)
    frame (rsync_server_image u) opts s m e = absurd (cc e)
    frame (rsync_client_image u) opts s m e = absurd (cc e)
    frame (exclude_files u) opts s m e = absurd (cc e)
    frame (munge_symlinks u) opts s m e = absurd (cc e)

    module _ (aggregates : IsAggregate aggregate) where
      option_error-IsAccepted :
          (opt : TransferOption S R)
          → (option_error name_errors value_errors aggregate opt ≡ none)
            ↔ IsAccepted name_errors value_errors opt
      unfolding option_error
      option_error-IsAccepted (with_source_pod_labels w) =
          label_error_iff name_errors value_errors aggregate aggregates w
      option_error-IsAccepted (with_destination_pod_labels w) =
          label_error_iff name_errors value_errors aggregate aggregates w
      option_error-IsAccepted (with_owner_references refs) =
          elim (Bool-cases (some_incomplete refs)) [
            | inl e ↦ rw e (
              λ never. absurd (cc never),
              λ h. absurd (cc (sym e ∙ (some_incomplete_iff refs).1 h)),
            )
            | inr e ↦ rw e (λ h. (some_incomplete_iff refs).0 e, λ h. refl)
          ]
      option_error-IsAccepted (archive_files a) = (λ h. tt, λ h. refl)
      option_error-IsAccepted (preserve_ownership a) = (λ h. tt, λ h. refl)
      option_error-IsAccepted (standard_progress a) = (λ h. tt, λ h. refl)
      option_error-IsAccepted (delete_destination a) = (λ h. tt, λ h. refl)
      option_error-IsAccepted (source_pod_spec_mutation p) = (λ h. tt, λ h. refl)
      option_error-IsAccepted (destination_pod_spec_mutation p) = (λ h. tt, λ h. refl)
      option_error-IsAccepted (source_container_mutation p) = (λ h. tt, λ h. refl)
      option_error-IsAccepted (destination_container_mutation p) = (λ h. tt, λ h. refl)
      option_error-IsAccepted (username u) = (λ h. tt, λ h. refl)
      option_error-IsAccepted (password u) = (λ h. tt, λ h. refl)
      option_error-IsAccepted (rsync_server_image u) = (λ h. tt, λ h. refl)
      option_error-IsAccepted (rsync_client_image u) = (λ h. tt, λ h. refl)
      option_error-IsAccepted (exclude_files u) = (λ h. tt, λ h. refl)
      option_error-IsAccepted (munge_symlinks u) = (λ h. tt, λ h. refl)

      -- The claims on a list of options, for the pair that is left.
      abbrev Left :
          List (TransferOption S R)
          → Settings S R
          → TransferOptions S R × List (Option String)
          → Type 0
      Left opts s (t', errs) =
          (settings t' ≡ asked opts s)
          × (NoErrors errs ↔ All (IsAccepted name_errors value_errors) opts)

      module _ (grow : Growth) where
        apply_to-accepted :
            (opt : TransferOption S R) (t : TransferOptions S R)
            → option_error name_errors value_errors aggregate opt ≡ none
            → apply_to grow name_errors value_errors aggregate opt t ≡ (set_option grow opt t, none)
        unfolding apply_to
        apply_to-accepted opt t e = rw (e, apply_to) refl

        apply_to-refused :
            (opt : TransferOption S R) (t : TransferOptions S R) (m : String)
            → option_error name_errors value_errors aggregate opt ≡ some m
            → apply_to grow name_errors value_errors aggregate opt t ≡ (t, some m)
        unfolding apply_to
        apply_to-refused opt t m e = rw (e, apply_to) refl

        abbrev each :
            List (TransferOption S R)
            → TransferOptions S R
            → TransferOptions S R × List (Option String)
        each opts t = apply_each grow name_errors value_errors aggregate opts t

        -- What is left after the rest, by what the first option gave.
        after_rest :
            List (TransferOption S R)
            → TransferOptions S R × Option String
            → TransferOptions S R × List (Option String)
        after_rest opts (t, e) =
            ((each opts t).0, elim e [ none ↦ (each opts t).1 | some m ↦ some m ∷ (each opts t).1 ])

        apply_each-cons :
            (opt : TransferOption S R) (opts : List (TransferOption S R)) (t : TransferOptions S R)
            → each (opt ∷ opts) t
              ≡ after_rest opts (apply_to grow name_errors value_errors aggregate opt t)
        unfolding apply_each after_rest
        apply_each-cons opt opts t = refl

        accepted-Left :
            (opt : TransferOption S R) (opts : List (TransferOption S R)) (t : TransferOptions S R)
            → IsValid t
            → option_error name_errors value_errors aggregate opt ≡ none
            → Left opts (settings (set_option grow opt t)) (each opts (set_option grow opt t))
            → Left (opt ∷ opts) (settings t) (after_rest opts (set_option grow opt t, none))
        unfolding after_rest
        accepted-Left opt opts t valid e (set, errors) = (
          set ∙ (step grow opt opts t valid).0,
          (λ h. ((option_error-IsAccepted opt).0 e, errors.0 h), λ (_, h). errors.1 h),
        )

        refused-Left :
            (opt : TransferOption S R) (opts : List (TransferOption S R)) (t : TransferOptions S R)
            (m : String)
            → option_error name_errors value_errors aggregate opt ≡ some m
            → Left opts (settings t) (each opts t)
            → Left (opt ∷ opts) (settings t) (after_rest opts (t, some m))
        unfolding after_rest
        refused-Left opt opts t m e (set, errors) = (
          set ∙ frame opt opts (settings t) m e,
          (
            λ (never, _). absurd (cc never),
            λ (accepted, _). absurd (cc (sym e ∙ (option_error-IsAccepted opt).1 accepted)),
          ),
        )

        apply_each_lem :
            (opts : List (TransferOption S R)) (t : TransferOptions S R)
            → IsValid t
            → Left opts (settings t) (each opts t)
        apply_each_lem [] t valid =
            unfold apply_each in (rw (append-nil, append-nil, append-nil) refl, (λ h. tt, λ h. tt))
        apply_each_lem (opt ∷ opts) t valid =
            elim (Option-cases (option_error name_errors value_errors aggregate opt)) [
              | inl e ↦
                  subst (Left (opt ∷ opts) (settings t))
                    (sym (
                      apply_each-cons opt opts t
                      ∙ ap (after_rest opts) (apply_to-accepted opt t e)))
                    (accepted-Left opt opts t valid e
                      (apply_each_lem opts (set_option grow opt t) (step grow opt opts t valid).1))
              | inr (m, e) ↦
                  subst (Left (opt ∷ opts) (settings t))
                    (sym (
                      apply_each-cons opt opts t
                      ∙ ap (after_rest opts) (apply_to-refused opt t m e)))
                    (refused-Left opt opts t m e (apply_each_lem opts t valid))
            ]

        -- Where NewAggregate does what it documents, and every slice is within its array, Apply leaves
        -- the settings that the options ask for: for the user, the password, the images, the symbolic
        -- links, the deletion and the flags and outputs of the command the last value given, and,
        -- behind those that were there, the excluded files that are not empty and the mutations of
        -- the source in their order, whatever mutations of the destination stand between them. It
        -- returns no error exactly if every set of labels passes the validation and every owner
        -- reference has its kind, name and UID.
        pub apply_lem :
            (opts : List (TransferOption S R)) (t : TransferOptions S R)
            → IsValid t
            → (settings (apply grow name_errors value_errors aggregate opts t).0
                ≡ asked opts (settings t))
              × (((apply grow name_errors value_errors aggregate opts t).1 ≡ none)
                  ↔ All (IsAccepted name_errors value_errors) opts)
        unfolding apply
        apply_lem opts t valid =
            let (set, errors) = apply_each_lem opts t valid in
            (set, (λ h. errors.0 ((aggregates _).0 h), λ h. (aggregates _).1 (errors.1 h)))
