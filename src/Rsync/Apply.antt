-- ===== src/Rsync/Apply.antt =====
-- options.go: the options that a user of the transfer gives, and `Apply`.
pub mod Settings
pub mod Validity
pub mod Laws
use crane_lib.Base.{
  String, Bool, true, false, Option, none, some, List, [], ◌∷◌, ◌++◌, keep, map, not, ◌&&◌, ◌||◌,
}
use crane_lib.Base.{if◌then◌else◌, string_eq, ◌==◌}
use crane_lib.Base.Dict.{Dict}
use crane_lib.Meta.{
  Mutation, PodSpec, Container, new_mutation, mutation_type_replace, validate_labels,
}
use crane_lib.Rsync.Aliasing.{Growth, append_source, append_destination}
use crane_lib.Rsync.{CommandOptions, OwnerReference, ResourceMetadata, TransferOptions, Aggregate}

-- The types that are a `TransferOption`; a mutation holds a pointer.
pub data TransferOption (S R : Type 0) : Type 0 where
  archive_files : Bool → TransferOption S R
  preserve_ownership : Bool → TransferOption S R
  standard_progress : Bool → TransferOption S R
  delete_destination : Bool → TransferOption S R
  with_source_pod_labels : Dict String String → TransferOption S R
  with_destination_pod_labels : Dict String String → TransferOption S R
  with_owner_references : List OwnerReference → TransferOption S R
  source_pod_spec_mutation : Option (PodSpec S) → TransferOption S R
  destination_pod_spec_mutation : Option (PodSpec S) → TransferOption S R
  source_container_mutation : Option (Container S R) → TransferOption S R
  destination_container_mutation : Option (Container S R) → TransferOption S R
  username : String → TransferOption S R
  password : String → TransferOption S R
  rsync_server_image : String → TransferOption S R
  rsync_client_image : String → TransferOption S R
  exclude_files : List String → TransferOption S R
  munge_symlinks : Bool → TransferOption S R

-- `len(ref.Kind)*len(ref.Name)*len(ref.UID) == 0`
unfoldable pub is_incomplete : OwnerReference → Bool
is_incomplete ref = (ref.kind == "") || (ref.name == "") || (ref.uid == "")

unfoldable pub some_incomplete : List OwnerReference → Bool
unfolding is_incomplete
some_incomplete [] = false
some_incomplete (ref ∷ refs) = if is_incomplete ref then true else some_incomplete refs

unfoldable pub archive : Bool → CommandOptions → CommandOptions
archive a c = record {
  recursive = a;
  sym_links = a;
  permissions = a;
  mod_times = a;
  device_files = a;
  special_files = a;
  groups = a;
  owners = a;
  hard_links = c.hard_links;
  delete = c.delete;
  partial = c.partial;
  bw_limit = c.bw_limit;
  human_readable = c.human_readable;
  log_file = c.log_file;
  info = c.info;
  exclude_files = c.exclude_files;
  extras = c.extras;
}

unfoldable pub own : Bool → CommandOptions → CommandOptions
own p c = record {
  recursive = c.recursive;
  sym_links = c.sym_links;
  permissions = c.permissions;
  mod_times = c.mod_times;
  device_files = c.device_files;
  special_files = c.special_files;
  groups = p;
  owners = p;
  hard_links = c.hard_links;
  delete = c.delete;
  partial = c.partial;
  bw_limit = c.bw_limit;
  human_readable = c.human_readable;
  log_file = c.log_file;
  info = c.info;
  exclude_files = c.exclude_files;
  extras = c.extras;
}

unfoldable pub show_progress : CommandOptions → CommandOptions
show_progress c = record {
  recursive = c.recursive;
  sym_links = c.sym_links;
  permissions = c.permissions;
  mod_times = c.mod_times;
  device_files = c.device_files;
  special_files = c.special_files;
  groups = c.groups;
  owners = c.owners;
  hard_links = c.hard_links;
  delete = c.delete;
  partial = c.partial;
  bw_limit = c.bw_limit;
  human_readable = true;
  log_file = "/dev/stdout";
  info = "COPY2" ∷ "DEL2" ∷ "REMOVE2" ∷ "SKIP2" ∷ "FLIST2" ∷ "PROGRESS2" ∷ "STATS2" ∷ [];
  exclude_files = c.exclude_files;
  extras = c.extras;
}

unfoldable pub delete_as : Bool → CommandOptions → CommandOptions
delete_as d c = record {
  recursive = c.recursive;
  sym_links = c.sym_links;
  permissions = c.permissions;
  mod_times = c.mod_times;
  device_files = c.device_files;
  special_files = c.special_files;
  groups = c.groups;
  owners = c.owners;
  hard_links = c.hard_links;
  delete = d;
  partial = c.partial;
  bw_limit = c.bw_limit;
  human_readable = c.human_readable;
  log_file = c.log_file;
  info = c.info;
  exclude_files = c.exclude_files;
  extras = c.extras;
}

unfoldable pub exclude : List String → CommandOptions → CommandOptions
exclude files c = record {
  recursive = c.recursive;
  sym_links = c.sym_links;
  permissions = c.permissions;
  mod_times = c.mod_times;
  device_files = c.device_files;
  special_files = c.special_files;
  groups = c.groups;
  owners = c.owners;
  hard_links = c.hard_links;
  delete = c.delete;
  partial = c.partial;
  bw_limit = c.bw_limit;
  human_readable = c.human_readable;
  log_file = c.log_file;
  info = c.info;
  exclude_files = c.exclude_files ++ keep (λ f. not (f == "")) files;
  extras = c.extras;
}

unfoldable pub with_labels : Dict String String → ResourceMetadata → ResourceMetadata
with_labels w m = record {
  annotations = m.annotations;
  labels = w;
  owner_references = m.owner_references;
}

unfoldable pub with_owners : List OwnerReference → ResourceMetadata → ResourceMetadata
with_owners w m = record { annotations = m.annotations; labels = m.labels; owner_references = w }

-- metadata.ValidateLabels, by its aggregate
module _ (name_errors value_errors : String → List String) (aggregate : Aggregate) where
  unfoldable pub label_error : Dict String String → Option String
  unfolding validate_labels
  label_error w = aggregate (map some (validate_labels name_errors value_errors w))

module _ {S R : Type 0} (grow : Growth) where
  -- What an option sets once it is accepted. A mutation of the destination is appended to those of
  -- the source, as the code has it.
  unfoldable pub set_option : TransferOption S R → TransferOptions S R → TransferOptions S R
  unfolding archive own show_progress delete_as exclude with_labels with_owners new_mutation
      append_source append_destination
  set_option (archive_files a) t = record {
    command_options = archive a t.command_options;
    source_pod_meta = t.source_pod_meta;
    destination_pod_meta = t.destination_pod_meta;
    pod_mutations = t.pod_mutations;
    container_mutations = t.container_mutations;
    username = t.username;
    password = t.password;
    rsync_server_image = t.rsync_server_image;
    rsync_client_image = t.rsync_client_image;
    munge_symlinks = t.munge_symlinks;
  }
  set_option (preserve_ownership p) t = record {
    command_options = own p t.command_options;
    source_pod_meta = t.source_pod_meta;
    destination_pod_meta = t.destination_pod_meta;
    pod_mutations = t.pod_mutations;
    container_mutations = t.container_mutations;
    username = t.username;
    password = t.password;
    rsync_server_image = t.rsync_server_image;
    rsync_client_image = t.rsync_client_image;
    munge_symlinks = t.munge_symlinks;
  }
  set_option (standard_progress s) t = record {
    command_options = show_progress t.command_options;
    source_pod_meta = t.source_pod_meta;
    destination_pod_meta = t.destination_pod_meta;
    pod_mutations = t.pod_mutations;
    container_mutations = t.container_mutations;
    username = t.username;
    password = t.password;
    rsync_server_image = t.rsync_server_image;
    rsync_client_image = t.rsync_client_image;
    munge_symlinks = t.munge_symlinks;
  }
  set_option (delete_destination d) t = record {
    command_options = delete_as d t.command_options;
    source_pod_meta = t.source_pod_meta;
    destination_pod_meta = t.destination_pod_meta;
    pod_mutations = t.pod_mutations;
    container_mutations = t.container_mutations;
    username = t.username;
    password = t.password;
    rsync_server_image = t.rsync_server_image;
    rsync_client_image = t.rsync_client_image;
    munge_symlinks = t.munge_symlinks;
  }
  set_option (with_source_pod_labels w) t = record {
    command_options = t.command_options;
    source_pod_meta = with_labels w t.source_pod_meta;
    destination_pod_meta = t.destination_pod_meta;
    pod_mutations = t.pod_mutations;
    container_mutations = t.container_mutations;
    username = t.username;
    password = t.password;
    rsync_server_image = t.rsync_server_image;
    rsync_client_image = t.rsync_client_image;
    munge_symlinks = t.munge_symlinks;
  }
  set_option (with_destination_pod_labels w) t = record {
    command_options = t.command_options;
    source_pod_meta = t.source_pod_meta;
    destination_pod_meta = with_labels w t.destination_pod_meta;
    pod_mutations = t.pod_mutations;
    container_mutations = t.container_mutations;
    username = t.username;
    password = t.password;
    rsync_server_image = t.rsync_server_image;
    rsync_client_image = t.rsync_client_image;
    munge_symlinks = t.munge_symlinks;
  }
  set_option (with_owner_references w) t = record {
    command_options = t.command_options;
    source_pod_meta = with_owners w t.source_pod_meta;
    destination_pod_meta = with_owners w t.destination_pod_meta;
    pod_mutations = t.pod_mutations;
    container_mutations = t.container_mutations;
    username = t.username;
    password = t.password;
    rsync_server_image = t.rsync_server_image;
    rsync_client_image = t.rsync_client_image;
    munge_symlinks = t.munge_symlinks;
  }
  set_option (source_pod_spec_mutation p) t = record {
    command_options = t.command_options;
    source_pod_meta = t.source_pod_meta;
    destination_pod_meta = t.destination_pod_meta;
    pod_mutations = append_source grow (new_mutation p mutation_type_replace) t.pod_mutations;
    container_mutations = t.container_mutations;
    username = t.username;
    password = t.password;
    rsync_server_image = t.rsync_server_image;
    rsync_client_image = t.rsync_client_image;
    munge_symlinks = t.munge_symlinks;
  }
  set_option (destination_pod_spec_mutation p) t = record {
    command_options = t.command_options;
    source_pod_meta = t.source_pod_meta;
    destination_pod_meta = t.destination_pod_meta;
    pod_mutations = append_destination (new_mutation p mutation_type_replace) t.pod_mutations;
    container_mutations = t.container_mutations;
    username = t.username;
    password = t.password;
    rsync_server_image = t.rsync_server_image;
    rsync_client_image = t.rsync_client_image;
    munge_symlinks = t.munge_symlinks;
  }
  set_option (source_container_mutation c) t = record {
    command_options = t.command_options;
    source_pod_meta = t.source_pod_meta;
    destination_pod_meta = t.destination_pod_meta;
    pod_mutations = t.pod_mutations;
    container_mutations =
        append_source grow (new_mutation c mutation_type_replace) t.container_mutations;
    username = t.username;
    password = t.password;
    rsync_server_image = t.rsync_server_image;
    rsync_client_image = t.rsync_client_image;
    munge_symlinks = t.munge_symlinks;
  }
  set_option (destination_container_mutation c) t = record {
    command_options = t.command_options;
    source_pod_meta = t.source_pod_meta;
    destination_pod_meta = t.destination_pod_meta;
    pod_mutations = t.pod_mutations;
    container_mutations =
        append_destination (new_mutation c mutation_type_replace) t.container_mutations;
    username = t.username;
    password = t.password;
    rsync_server_image = t.rsync_server_image;
    rsync_client_image = t.rsync_client_image;
    munge_symlinks = t.munge_symlinks;
  }
  set_option (username u) t = record {
    command_options = t.command_options;
    source_pod_meta = t.source_pod_meta;
    destination_pod_meta = t.destination_pod_meta;
    pod_mutations = t.pod_mutations;
    container_mutations = t.container_mutations;
    username = u;
    password = t.password;
    rsync_server_image = t.rsync_server_image;
    rsync_client_image = t.rsync_client_image;
    munge_symlinks = t.munge_symlinks;
  }
  set_option (password p) t = record {
    command_options = t.command_options;
    source_pod_meta = t.source_pod_meta;
    destination_pod_meta = t.destination_pod_meta;
    pod_mutations = t.pod_mutations;
    container_mutations = t.container_mutations;
    username = t.username;
    password = p;
    rsync_server_image = t.rsync_server_image;
    rsync_client_image = t.rsync_client_image;
    munge_symlinks = t.munge_symlinks;
  }
  set_option (rsync_server_image r) t = record {
    command_options = t.command_options;
    source_pod_meta = t.source_pod_meta;
    destination_pod_meta = t.destination_pod_meta;
    pod_mutations = t.pod_mutations;
    container_mutations = t.container_mutations;
    username = t.username;
    password = t.password;
    rsync_server_image = r;
    rsync_client_image = t.rsync_client_image;
    munge_symlinks = t.munge_symlinks;
  }
  set_option (rsync_client_image r) t = record {
    command_options = t.command_options;
    source_pod_meta = t.source_pod_meta;
    destination_pod_meta = t.destination_pod_meta;
    pod_mutations = t.pod_mutations;
    container_mutations = t.container_mutations;
    username = t.username;
    password = t.password;
    rsync_server_image = t.rsync_server_image;
    rsync_client_image = r;
    munge_symlinks = t.munge_symlinks;
  }
  set_option (exclude_files e) t = record {
    command_options = exclude e t.command_options;
    source_pod_meta = t.source_pod_meta;
    destination_pod_meta = t.destination_pod_meta;
    pod_mutations = t.pod_mutations;
    container_mutations = t.container_mutations;
    username = t.username;
    password = t.password;
    rsync_server_image = t.rsync_server_image;
    rsync_client_image = t.rsync_client_image;
    munge_symlinks = t.munge_symlinks;
  }
  set_option (munge_symlinks e) t = record {
    command_options = t.command_options;
    source_pod_meta = t.source_pod_meta;
    destination_pod_meta = t.destination_pod_meta;
    pod_mutations = t.pod_mutations;
    container_mutations = t.container_mutations;
    username = t.username;
    password = t.password;
    rsync_server_image = t.rsync_server_image;
    rsync_client_image = t.rsync_client_image;
    munge_symlinks = e;
  }

-- The errors of an option. `name_errors` and `value_errors` are the validation of labels.
module _ {S R : Type 0} (name_errors value_errors : String → List String)
    (aggregate : Aggregate) where
  unfoldable pub option_error : TransferOption S R → Option String
  unfolding label_error some_incomplete
  option_error (with_source_pod_labels w) = label_error name_errors value_errors aggregate w
  option_error (with_destination_pod_labels w) = label_error name_errors value_errors aggregate w
  option_error (with_owner_references w) =
      if some_incomplete w
      then some "all OwnerReferences must have Kind, Name and UID set"
      else none
  option_error _ = none

module _ {S R : Type 0} (grow : Growth) (name_errors value_errors : String → List String)
    (aggregate : Aggregate) where
  -- `ApplyTo`: with an error nothing is set.
  unfoldable pub apply_to :
      TransferOption S R → TransferOptions S R → TransferOptions S R × Option String
  unfolding set_option option_error
  apply_to opt t = elim (option_error name_errors value_errors aggregate opt) [
    | some e ↦ (t, some e)
    | none ↦ (set_option grow opt t, none)
  ]

  unfoldable pub apply_each :
      List (TransferOption S R) → TransferOptions S R → TransferOptions S R × List (Option String)
  unfolding apply_to
  apply_each [] t = (t, [])
  apply_each (opt ∷ opts) t =
      let (t', e) = apply_to opt t in
      let (t'', errs) = apply_each opts t' in
      (t'', elim e [ none ↦ errs | some message ↦ some message ∷ errs ])

  -- `Apply`: the options that are accepted are set also if another gives an error.
  unfoldable pub apply :
      List (TransferOption S R) → TransferOptions S R → TransferOptions S R × Option String
  unfolding apply_each
  apply opts t = let (t', errs) = apply_each opts t in (t', aggregate errs)

-- `GetRsyncCommandDefaultOptions`
abbrev pub get_rsync_command_default_options : {S R : Type 0} → List (TransferOption S R)
get_rsync_command_default_options = archive_files true ∷ standard_progress true ∷ []
