-- ===== src/Rsync/Apply/Settings.antt =====
-- What the options of a transfer ask for, apart from the code that sets them.
use crane_lib.Base.{true}
use crane_lib.Base.{String, Bool, not, Option, none, some, List, [], ◌∷◌, ◌++◌, All, keep}
use crane_lib.Base.{◌≡◌, ◌≢◌, string_eq, ◌==◌}
use crane_lib.Meta.{
  Mutation, PodSpec, Container, new_mutation, mutation_type_replace, validate_labels,
}
use crane_lib.Rsync.{TransferOptions, OwnerReference}
use crane_lib.Rsync.Aliasing.{
  Growth, Slices, source_list, append_source_lem, append_destination_lem,
}
use crane_lib.Rsync.Aliasing
use crane_lib.Rsync.Apply.{
  TransferOption, archive_files, preserve_ownership, standard_progress, delete_destination,
  with_source_pod_labels, with_destination_pod_labels, with_owner_references,
  source_pod_spec_mutation, source_container_mutation, username, password, rsync_server_image,
  rsync_client_image, exclude_files, munge_symlinks,
}

-- What the transfer reads of its options, with the source's mutations as lists. The mutations of the
-- destination are left out, since they can share an array with those of the source.
pub record Settings (S R : Type 0) : Type 0 where
  pub user : String
  pub secret : String
  pub server : String
  pub client : String
  pub munges : Bool
  pub deletes : Bool
  pub recursive : Bool
  pub sym_links : Bool
  pub permissions : Bool
  pub mod_times : Bool
  pub device_files : Bool
  pub special_files : Bool
  pub groups : Bool
  pub owners : Bool
  pub human_readable : Bool
  pub log_file : String
  pub info : List String
  pub excluded : List String
  pub pods : List (Mutation (PodSpec S))
  pub containers : List (Mutation (Container S R))

-- The three fields are set.
abbrev pub IsComplete : OwnerReference → Type 0
IsComplete ref = (ref.kind ≢ "") × (ref.name ≢ "") × (ref.uid ≢ "")

module _ {S R : Type 0} where
  abbrev pub settings : TransferOptions S R → Settings S R
  settings t = record {
    user = t.username;
    secret = t.password;
    server = t.rsync_server_image;
    client = t.rsync_client_image;
    munges = t.munge_symlinks;
    deletes = t.command_options.delete;
    recursive = t.command_options.recursive;
    sym_links = t.command_options.sym_links;
    permissions = t.command_options.permissions;
    mod_times = t.command_options.mod_times;
    device_files = t.command_options.device_files;
    special_files = t.command_options.special_files;
    groups = t.command_options.groups;
    owners = t.command_options.owners;
    human_readable = t.command_options.human_readable;
    log_file = t.command_options.log_file;
    info = t.command_options.info;
    excluded = t.command_options.exclude_files;
    pods = source_list t.pod_mutations;
    containers = source_list t.container_mutations;
  }

  -- The last value given, or the old one.
  abbrev pub last_given :
      {A : Type 0} → (TransferOption S R → Option A) → A → List (TransferOption S R) → A
  last_given pick old [] = old
  last_given pick old (opt ∷ opts) =
      last_given pick (elim (pick opt) [ none ↦ old | some new ↦ new ]) opts

  -- All values given, in their order.
  abbrev pub all_given :
      {A : Type 0} → (TransferOption S R → List A) → List (TransferOption S R) → List A
  all_given pick [] = []
  all_given pick (opt ∷ opts) = pick opt ++ all_given pick opts

  abbrev pub as_username : TransferOption S R → Option String
  as_username (username u) = some u
  as_username _ = none

  abbrev pub as_password : TransferOption S R → Option String
  as_password (password p) = some p
  as_password _ = none

  abbrev pub as_server_image : TransferOption S R → Option String
  as_server_image (rsync_server_image r) = some r
  as_server_image _ = none

  abbrev pub as_client_image : TransferOption S R → Option String
  as_client_image (rsync_client_image r) = some r
  as_client_image _ = none

  abbrev pub as_munge : TransferOption S R → Option Bool
  as_munge (munge_symlinks e) = some e
  as_munge _ = none

  abbrev pub as_delete : TransferOption S R → Option Bool
  as_delete (delete_destination d) = some d
  as_delete _ = none

  abbrev pub as_archive : TransferOption S R → Option Bool
  as_archive (archive_files a) = some a
  as_archive _ = none

  abbrev pub as_ownership : TransferOption S R → Option Bool
  as_ownership (archive_files a) = some a
  as_ownership (preserve_ownership p) = some p
  as_ownership _ = none

  -- Progress is shown whatever the value of the option is.
  abbrev pub as_readable : TransferOption S R → Option Bool
  as_readable (standard_progress s) = some true
  as_readable _ = none

  abbrev pub as_log_file : TransferOption S R → Option String
  as_log_file (standard_progress s) = some "/dev/stdout"
  as_log_file _ = none

  abbrev pub as_info : TransferOption S R → Option (List String)
  as_info (standard_progress s) =
      some ("COPY2" ∷ "DEL2" ∷ "REMOVE2" ∷ "SKIP2" ∷ "FLIST2" ∷ "PROGRESS2" ∷ "STATS2" ∷ [])
  as_info _ = none

  abbrev pub as_excluded : TransferOption S R → List String
  as_excluded (exclude_files e) = keep (λ f. not (f == "")) e
  as_excluded _ = []

  abbrev pub as_pod : TransferOption S R → List (Mutation (PodSpec S))
  as_pod (source_pod_spec_mutation p) = new_mutation p mutation_type_replace ∷ []
  as_pod _ = []

  abbrev pub as_container : TransferOption S R → List (Mutation (Container S R))
  as_container (source_container_mutation c) = new_mutation c mutation_type_replace ∷ []
  as_container _ = []

  -- The settings that a list of options asks for.
  abbrev pub asked : List (TransferOption S R) → Settings S R → Settings S R
  asked opts s = record {
    user = last_given as_username s.user opts;
    secret = last_given as_password s.secret opts;
    server = last_given as_server_image s.server opts;
    client = last_given as_client_image s.client opts;
    munges = last_given as_munge s.munges opts;
    deletes = last_given as_delete s.deletes opts;
    recursive = last_given as_archive s.recursive opts;
    sym_links = last_given as_archive s.sym_links opts;
    permissions = last_given as_archive s.permissions opts;
    mod_times = last_given as_archive s.mod_times opts;
    device_files = last_given as_archive s.device_files opts;
    special_files = last_given as_archive s.special_files opts;
    groups = last_given as_ownership s.groups opts;
    owners = last_given as_ownership s.owners opts;
    human_readable = last_given as_readable s.human_readable opts;
    log_file = last_given as_log_file s.log_file opts;
    info = last_given as_info s.info opts;
    excluded = s.excluded ++ all_given as_excluded opts;
    pods = s.pods ++ all_given as_pod opts;
    containers = s.containers ++ all_given as_container opts;
  }

  abbrev pub IsValid : TransferOptions S R → Type 0
  IsValid t = Aliasing.IsValid t.pod_mutations × Aliasing.IsValid t.container_mutations

  -- The options that are accepted.
  abbrev pub IsAccepted :
      (String → List String) → (String → List String) → TransferOption S R → Type 0
  IsAccepted name_errors value_errors (with_source_pod_labels w) =
      validate_labels name_errors value_errors w ≡ []
  IsAccepted name_errors value_errors (with_destination_pod_labels w) =
      validate_labels name_errors value_errors w ≡ []
  IsAccepted name_errors value_errors (with_owner_references refs) = All IsComplete refs
  IsAccepted name_errors value_errors _ = Unit
