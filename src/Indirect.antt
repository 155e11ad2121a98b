-- ===== src/Indirect.antt =====
-- state_transfer/transfer/indirect: copying claims through cloud storage with rclone. The pods that
-- run rclone are made, and created by the client, which is a parameter.
pub mod Names
pub mod Paths
mod Tests
use Prim.Native.Char.{len_utf8}
use Prim.Native.String.{len, ◌++◌ as ◌<>◌}
use crane_lib.Base.{ℕ, ◌-◌, leb, String, Bool, true, false, Option, none, some, List, [], ◌∷◌, ◌++◌}
use crane_lib.Base.{Result, ok, err, inl, inr, ◌⊎◌, if◌then◌else◌, string_eq, ◌==◌}
use crane_lib.Base.Int.{ℤ, pos}
use crane_lib.Base.Dict
use crane_lib.Base.Dict.{Dict}
use crane_lib.Strconv.{format_int}
use crane_lib.Strings.{trim_right}

-- The fields of a PodSecurityContext that are read; the rest is passed on.
pub record SecurityContext : Type 0 where
  pub run_as_user : Option ℤ
  pub run_as_group : Option ℤ
  pub fs_group : Option ℤ

pub record Options : Type 0 where
  pub image : String
  pub cloud_storage : String
  pub config_secret : String
  pub encrypt : Bool
  pub keep_cloud_data : Bool
  pub labels : Dict String String
  pub upload_security_context : SecurityContext
  pub download_security_context : SecurityContext

-- What differs between the pods. The cleanup pod mounts no claim.
pub record Pod : Type 0 where
  pub name : String
  pub namespace : String
  pub labels : Dict String String
  pub security_context : Option SecurityContext
  pub image : String
  pub command : List String
  pub claim_name : Option String
  pub secret_name : String

pub record Claim : Type 0 where
  pub namespace : String
  pub name : String

-- `Validate`, by its error
unfoldable pub validate : Options → Option String
validate o =
    if o.cloud_storage == ""
    then some "cloud storage path is required"
    else if o.config_secret == ""
    then some "rclone config secret name is required"
    else none

-- `New`, by the options that it keeps; the default image may be set when the program is built.
unfoldable pub new : String → Options → Options
new default_image opts = record {
  image = if opts.image == "" then default_image else opts.image;
  cloud_storage = opts.cloud_storage;
  config_secret = opts.config_secret;
  encrypt = opts.encrypt;
  keep_cloud_data = opts.keep_cloud_data;
  labels = elim opts.labels [
    | [] ↦
        ("app.kubernetes.io/name", "crane")
        ∷ ("app.kubernetes.io/component", "indirect-transfer")
        ∷ []
    | l ∷ rest ↦ l ∷ rest
  ];
  upload_security_context = opts.upload_security_context;
  download_security_context = opts.download_security_context;
}

-- `isPodComplete`, by what `Get` gives: an error, or the phase of the pod.
unfoldable pub is_pod_complete : String → String → String ⊎ String → Bool × Option String
is_pod_complete pod_name namespace (inl e) = (false, some e)
is_pod_complete pod_name namespace (inr phase) =
    if phase == "Succeeded"
    then (true, none)
    else if phase == "Failed"
    then (true, some ("pod " <> (namespace <> ("/" <> (pod_name <> " failed")))))
    else (false, none)

unfoldable pub copy_labels : Dict String String → Dict String String
copy_labels [] = []
copy_labels ((k, v) ∷ src) = Dict.insert k v (copy_labels src)

abbrev pub max_pod_name_len : ℕ
max_pod_name_len = 63

-- `name[:n]`, in bytes. A character that the cut would split is left out; Go keeps its first bytes,
-- which are no text, but names of claims are ASCII.
unfoldable pub take_bytes : ℕ → String → String
take_bytes n String.[] = ""
take_bytes n (String.◌∷◌ c s) =
    let rest = take_bytes (n - len_utf8 c) s in if leb (len_utf8 c) n then String.◌∷◌ c rest else ""

unfoldable pub truncate_pod_name : String → String
unfolding take_bytes
truncate_pod_name name =
    if leb (len name) max_pod_name_len
    then name
    else trim_right "-." (take_bytes max_pod_name_len name)

unfoldable pub pod_labels : Options → String → Dict String String
unfolding copy_labels
pod_labels o pvc_name =
    Dict.insert "app.konveyor.io/created-for-pvc" pvc_name (copy_labels o.labels)

unfoldable pub build_pod : Options → String → String → String → List String → SecurityContext → Pod
unfolding truncate_pod_name pod_labels
build_pod o name namespace pvc_name command sec_ctx = record {
  name = truncate_pod_name name;
  namespace = namespace;
  labels = pod_labels o pvc_name;
  security_context = some sec_ctx;
  image = o.image;
  command = command;
  claim_name = some pvc_name;
  secret_name = o.config_secret;
}

abbrev pub data_mount_path : String
data_mount_path = "/data"

unfoldable pub build_rclone_command : String → String → String → List String → List String
build_rclone_command subcommand src dst extra_args =
    ("rclone" ∷ subcommand ∷ src ∷ dst ∷ "--config" ∷ "/etc/rclone/rclone.conf" ∷ "--progress"
      ∷ "--links" ∷ "--metadata" ∷ "-v" ∷ [])
    ++ extra_args

abbrev pub or_else : Option ℤ → ℤ → ℤ
or_else none default = default
or_else (some n) default = n

-- The group is that of the context, or its FSGroup, or the user.
unfoldable pub metadata_set_args : SecurityContext → List String
metadata_set_args c =
    let uid = or_else c.run_as_user (pos 65534) in
    "--metadata-set"
    ∷ ("uid=" <> format_int uid)
    ∷ "--metadata-set"
    ∷ ("gid=" <> format_int (or_else c.run_as_group (or_else c.fs_group uid)))
    ∷ []

unfoldable pub build_crypt_section : String → String → Result String
build_crypt_section cloud_storage_path obscured_password =
    if cloud_storage_path == ""
    then err "cloud storage path is required for encryption config"
    else if obscured_password == ""
    then err "obscured password is required for encryption config"
    else ok (
        "\n[encrypted]\ntype = crypt\nremote = "
        <> (cloud_storage_path <> ("\npassword = " <> (obscured_password <> "\n"))))

-- `fmt.Sprintf("%s/%s/%s", ...)`
unfoldable pub cloud_path : Options → String → String → String
cloud_path o namespace name = o.cloud_storage <> ("/" <> (namespace <> ("/" <> name)))

unfoldable pub remote_path : Options → String → String → String
unfolding cloud_path
remote_path o namespace name = if o.encrypt then "encrypted:" else cloud_path o namespace name

-- `create` is the client's `Create`, by its error.
module _ (create : Pod → Option String) where
  -- What the three calls share: valid options, and a pod that is created and returned.
  unfoldable pub created : String → Options → Pod → Result Pod
  unfolding validate
  created what o pod = elim (validate o) [
    | some e ↦ err ("invalid options for " <> (what <> (": " <> e)))
    | none ↦ elim (create pod) [
      | some e ↦ err ("failed to create " <> (what <> (" pod: " <> e)))
      | none ↦ ok pod
    ]
  ]

  unfoldable pub upload : Options → Claim → Result Pod
  unfolding created build_pod build_rclone_command remote_path
  upload o pvc = created "upload" o (
      build_pod o ("rclone-upload-" <> pvc.name) pvc.namespace pvc.name
        (build_rclone_command "sync" data_mount_path (remote_path o pvc.namespace pvc.name) [])
        o.upload_security_context)

  unfoldable pub download : Options → Claim → String → String → Result Pod
  unfolding created build_pod build_rclone_command remote_path metadata_set_args
  download o pvc source_namespace remote_pvc_name = created "download" o (
      build_pod o ("rclone-download-" <> pvc.name) pvc.namespace pvc.name
        (build_rclone_command "sync" (remote_path o source_namespace remote_pvc_name)
          data_mount_path (metadata_set_args o.download_security_context))
        o.download_security_context)

  -- The direct path is cleaned up, also with encryption.
  unfoldable pub cleanup_cloud_data : Options → String → String → String → String → Result Pod
  unfolding created truncate_pod_name pod_labels cloud_path
  cleanup_cloud_data o namespace pvc_name source_namespace source_pvc_name =
      created "cloud cleanup" o (record {
        name = truncate_pod_name ("rclone-cleanup-" <> pvc_name);
        namespace = namespace;
        labels = pod_labels o pvc_name;
        security_context = none;
        image = o.image;
        command =
            "sh"
            ∷ "-c"
            ∷ "mkdir -p /tmp/empty && exec rclone sync /tmp/empty \"$1\" --config /etc/rclone/rclone.conf -v"
            ∷ "--"
            ∷ cloud_path o source_namespace source_pvc_name
            ∷ [];
        claim_name = none;
        secret_name = o.config_secret;
      })
