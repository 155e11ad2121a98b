-- ===== src/Rsync.antt =====
-- state_transfer/transfer/rsync: the options of options.go, of a whole transfer and of the rsync
-- command. Kubernetes' types are those of Meta; a nil pointer is `none`.
pub mod Aliasing
pub mod Patterns
pub mod Command
pub mod Apply
pub mod Mutations
pub mod Validation
mod Tests
use crane_lib.Base.{String, Bool, false, Option, none, some, List, []}
use crane_lib.Base.Int.{ℤ}
use crane_lib.Base.Dict.{Dict}
use crane_lib.Rsync.Aliasing.{Slices}
use crane_lib.Meta.{Mutation, PodSpec, Container}

pub record CommandOptions : Type 0 where
  pub recursive : Bool
  pub sym_links : Bool
  pub permissions : Bool
  pub mod_times : Bool
  pub device_files : Bool
  pub special_files : Bool
  pub groups : Bool
  pub owners : Bool
  pub hard_links : Bool
  pub delete : Bool
  pub partial : Bool
  pub bw_limit : Option ℤ
  pub human_readable : Bool
  pub log_file : String
  pub info : List String
  pub exclude_files : List String
  pub extras : List String

-- The fields of an owner reference that are read.
pub record OwnerReference : Type 0 where
  pub kind : String
  pub name : String
  pub uid : String

-- transfer.ResourceMetadata
pub record ResourceMetadata : Type 0 where
  pub annotations : Dict String String
  pub labels : Dict String String
  pub owner_references : List OwnerReference

-- SourcePodMutations and DestinationPodMutations are one field, since they can share an array, and so
-- are the mutations of the containers.
pub record TransferOptions (S R : Type 0) : Type 0 where
  pub command_options : CommandOptions
  pub source_pod_meta : ResourceMetadata
  pub destination_pod_meta : ResourceMetadata
  pub pod_mutations : Slices (Mutation (PodSpec S))
  pub container_mutations : Slices (Mutation (Container S R))
  pub username : String
  pub password : String
  pub rsync_server_image : String
  pub rsync_client_image : String
  pub munge_symlinks : Bool

-- errorsutil.NewAggregate, by its messages: no error for a list of nil errors.
abbrev pub Aggregate : Type 0
Aggregate = List (Option String) → Option String
