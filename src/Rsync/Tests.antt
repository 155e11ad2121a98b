-- ===== src/Rsync/Tests.antt =====
-- Options of a transfer, at concrete values.
use crane_lib.Base.{String, true, false, none, some, List, [], ◌∷◌, All}
use crane_lib.Base.{◌+◌, ltb, if◌then◌else◌, map, Option, arith}
use crane_lib.Base.{ok, ◌≡◌, ◌≢◌, refl, ◌↔◌, string_eq}
use crane_lib.Base.Int.{pos}
use crane_lib.PvcList.{
  Claim, PvcPairList, has_source, in_source_namespace, source_claim, destination_claim,
  get_source_namespaces, get_destination_namespaces, namespaces_from,
}
use crane_lib.Meta.{Mutation, PodSpec, new_mutation, mutation_type_replace, mutation_type_merge}
use crane_lib.Rsync.{CommandOptions, ResourceMetadata, TransferOptions, Aggregate}
use crane_lib.Rsync.Patterns.{is_info_option, is_extra_option}
use crane_lib.Rsync.Command.{as_rsync_command_options}
use crane_lib.Rsync.Command.Errors.{IsAggregate, IsPositiveLimit, as_rsync_command_options-none}
use crane_lib.Rsync.Mutations.{apply_pod_mutations, last_pod, apply_pod_mutations_lem}
use crane_lib.Rsync.Aliasing.{
  Growth, nil_slices, append_source, append_destination, destination_list,
}
use crane_lib.Rsync.Apply.{
  TransferOption, with_owner_references, rsync_client_image, source_pod_spec_mutation,
  destination_pod_spec_mutation, apply, set_option, option_error,
}
use crane_lib.Rsync.Apply.Settings.{settings, asked, IsAccepted}
use crane_lib.Rsync.Apply.Laws.{apply_lem}
use crane_lib.Rsync.Validation.{
  validate_pvc_list, all_pair_errors, validate_pvc_name, pair_errors, source_of, destination_of,
  label_safe_name, claim_name, namespace_errors, empty_errors,
}
use crane_lib.Rsync.Validation.Single.{validate_pvc_list-single}

-- The first error.
abbrev aggregate : Aggregate
aggregate [] = none
aggregate (none ∷ errs) = aggregate errs
aggregate (some e ∷ errs) = some e

aggregates : IsAggregate aggregate
aggregates [] = (λ h. tt, λ h. refl)
aggregates (none ∷ errs) =
    let (left, right) = aggregates errs in (λ h. (refl, left h), λ (_, h). right h)
aggregates (some e ∷ errs) = (λ never. absurd (cc never), λ (never, _). absurd (cc never))

abbrev command : CommandOptions
command = record {
  recursive = true;
  sym_links = true;
  permissions = false;
  mod_times = true;
  device_files = false;
  special_files = false;
  groups = false;
  owners = false;
  hard_links = false;
  delete = true;
  partial = false;
  bw_limit = some (pos 100);
  human_readable = true;
  log_file = "/dev/stdout";
  info = "COPY2" ∷ "del" ∷ [];
  exclude_files = "lost+found" ∷ [];
  extras = "--no-inc-recursive" ∷ "/etc/passwd" ∷ [];
}

as_rsync_command_options-none_example : ((as_rsync_command_options aggregate command).1 ≡ none) ↔ (
    IsPositiveLimit command.bw_limit
    × All (λ o. is_info_option o ≡ true) command.info
    × All (λ o. is_extra_option o ≡ true) command.extras)
as_rsync_command_options-none_example = as_rsync_command_options-none aggregate aggregates command

abbrev pod : PodSpec String
pod = record { security_context = none; node_selector = []; node_name = "" }

abbrev moved : PodSpec String
moved = record {
  security_context = some "non-root";
  node_selector = ("disk", "ssd") ∷ [];
  node_name = "node-1";
}

abbrev mutations : List (Mutation (PodSpec String))
mutations =
    new_mutation (some moved) mutation_type_replace
    ∷ new_mutation none mutation_type_replace
    ∷ new_mutation (some pod) mutation_type_merge
    ∷ []

apply_pod_mutations_lem_example : apply_pod_mutations pod mutations ≡ last_pod pod mutations
apply_pod_mutations_lem_example = apply_pod_mutations_lem pod mutations

abbrev no_metadata : ResourceMetadata
no_metadata = record { annotations = []; labels = []; owner_references = [] }

abbrev start : TransferOptions String String
start = record {
  command_options = command;
  source_pod_meta = no_metadata;
  destination_pod_meta = no_metadata;
  pod_mutations = nil_slices;
  container_mutations = nil_slices;
  username = "";
  password = "";
  rsync_server_image = "";
  rsync_client_image = "";
  munge_symlinks = false;
}

abbrev accept : String → List String
accept s = []

-- Arrays grow to twice their size.
abbrev doubled : Growth
doubled old needed = if ltb (old + old) needed then needed else old + old

abbrev on_node : String → Option (PodSpec String)
on_node name = some (record { security_context = none; node_selector = []; node_name = name })

abbrev given : List (TransferOption String String)
given =
    with_owner_references (record { kind = "Job"; name = ""; uid = "1" } ∷ [])
    ∷ rsync_client_image "rsync:2"
    ∷ source_pod_spec_mutation (on_node "a")
    ∷ source_pod_spec_mutation (on_node "b")
    ∷ source_pod_spec_mutation (on_node "c")
    ∷ destination_pod_spec_mutation (on_node "d")
    ∷ source_pod_spec_mutation (on_node "e")
    ∷ []

apply_lem_example :
    (settings (apply doubled accept accept aggregate given start).0 ≡ asked given (settings start))
    × (((apply doubled accept accept aggregate given start).1 ≡ none)
        ↔ All (IsAccepted accept accept) given)
apply_lem_example =
    apply_lem accept accept aggregate aggregates doubled given start (omega arith, omega arith)

-- The mutation of the destination is overwritten by the next one of the source.
lost :
    destination_list (apply doubled accept accept aggregate given start).0.pod_mutations
    ≡ map (λ name. new_mutation (on_node name) mutation_type_replace) ("a" ∷ "b" ∷ "c" ∷ "e" ∷ [])
unfolding apply set_option option_error append_source append_destination destination_list
    new_mutation string_eq
lost = refl

abbrev claim : Claim
claim = record { namespace = "shop"; name = "data"; annotations = []; volume_mode = none }

abbrev pairs : PvcPairList
pairs = some (record { src = some (some claim); dest = some (some claim) }) ∷ []

abbrev digest : String → String
digest s = s

have_sources : All (λ p. has_source p ≡ true) pairs
unfolding has_source
have_sources = (refl, tt)

accepted : validate_pvc_list digest accept aggregate pairs ≡ ok none
unfolding validate_pvc_list all_pair_errors pair_errors validate_pvc_name source_of destination_of
    label_safe_name claim_name get_source_namespaces get_destination_namespaces namespaces_from
    has_source source_claim destination_claim string_eq namespace_errors empty_errors
accepted = refl

validate_pvc_list-single_example :
    (pairs ≢ []) × ((ns : String) × (in_source_namespace pairs ns ≡ ok pairs))
validate_pvc_list-single_example =
    validate_pvc_list-single digest accept aggregate aggregates pairs have_sources accepted
