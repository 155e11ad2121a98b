-- ===== src/Indirect/Tests.antt =====
-- The theorems on the transfer through cloud storage, at concrete options.
use Prim.Native.String.{len, ◌++◌ as ◌<>◌}
use crane_lib.Base.{String, true, false, Option, none, some, [], ◌∷◌, ◌≤◌, ◌<◌}
use crane_lib.Base.{ok, err, inr, string_eq, ◌≡◌, refl, arith}
use crane_lib.Base.Int.{pos}
use crane_lib.Base.Dict
use crane_lib.Base.Dict.{Dict}
use crane_lib.Strconv.{format_int}
use crane_lib.Strings.Ascii.{IsAscii}
use crane_lib.Indirect.{
  SecurityContext, Options, Pod, Claim, validate, new, created, upload, download, is_pod_complete,
  truncate_pod_name, take_bytes, build_pod, build_rclone_command, remote_path, cloud_path,
  pod_labels, copy_labels, metadata_set_args,
}
use crane_lib.Indirect.Names.{EndsOutside, Within, truncate_pod_name_lem}
use crane_lib.Indirect.Paths.{word, upload-download}

abbrev as_root : SecurityContext
as_root = record { run_as_user = some (pos 0); run_as_group = none; fs_group = none }

abbrev options : Options
options = record {
  image = "rclone:1";
  cloud_storage = "s3:bucket";
  config_secret = "rclone";
  encrypt = false;
  keep_cloud_data = false;
  labels = [];
  upload_security_context = as_root;
  download_security_context = as_root;
}

abbrev reliable : Pod → Option String
reliable pod = none

abbrev source : Claim
source = record { namespace = "shop"; name = "data" }

abbrev destination : Claim
destination = record { namespace = "store"; name = "copy" }

abbrev labels_of : String → Dict String String
labels_of claim = ("app.konveyor.io/created-for-pvc", claim) ∷ []

abbrev up : Pod
up = record {
  name = "rclone-upload-data";
  namespace = "shop";
  labels = labels_of "data";
  security_context = some as_root;
  image = "rclone:1";
  command =
      "rclone" ∷ "sync" ∷ "/data" ∷ "s3:bucket/shop/data" ∷ "--config" ∷ "/etc/rclone/rclone.conf"
      ∷ "--progress" ∷ "--links" ∷ "--metadata" ∷ "-v" ∷ [];
  claim_name = some "data";
  secret_name = "rclone";
}

abbrev down : Pod
down = record {
  name = "rclone-download-copy";
  namespace = "store";
  labels = labels_of "copy";
  security_context = some as_root;
  image = "rclone:1";
  command =
      "rclone" ∷ "sync" ∷ "s3:bucket/shop/data" ∷ "/data" ∷ "--config" ∷ "/etc/rclone/rclone.conf"
      ∷ "--progress" ∷ "--links" ∷ "--metadata" ∷ "-v" ∷ "--metadata-set" ∷ "uid=0"
      ∷ "--metadata-set" ∷ "gid=0" ∷ [];
  claim_name = some "copy";
  secret_name = "rclone";
}

uploads : upload reliable options source ≡ ok up
unfolding upload created validate build_pod build_rclone_command remote_path cloud_path
    truncate_pod_name pod_labels copy_labels Dict.insert string_eq
uploads = refl

downloads : download reliable options destination "shop" "data" ≡ ok down
unfolding download created validate build_pod build_rclone_command remote_path cloud_path
    truncate_pod_name pod_labels copy_labels Dict.insert string_eq metadata_set_args format_int
downloads = refl

upload-download_example :
    (word up.command 3 ≡ word down.command 2)
    × (word up.command 2 ≡ some "/data")
    × (word down.command 3 ≡ some "/data")
    × (up.claim_name ≡ some "data")
    × (down.claim_name ≡ some "copy")
    × (up.namespace ≡ "shop")
    × (down.namespace ≡ "store")
    × (up.secret_name ≡ down.secret_name)
upload-download_example =
    upload-download reliable reliable options source destination up down uploads downloads

abbrev without_storage : Options
without_storage = record {
  image = "";
  cloud_storage = "";
  config_secret = "rclone";
  encrypt = false;
  keep_cloud_data = false;
  labels = [];
  upload_security_context = as_root;
  download_security_context = as_root;
}

refuses :
    upload reliable (new "rclone:1" without_storage) source
    ≡ err "invalid options for upload: cloud storage path is required"
unfolding upload created validate new string_eq
refuses = refl

failed_pod : is_pod_complete "p" "shop" (inr "Failed") ≡ (true, some "pod shop/p failed")
unfolding is_pod_complete string_eq
failed_pod = refl

abbrev long_name : String
long_name = "rclone-upload-0123456789012345678901234567890123456789012345678.-01"

long_name-IsAscii : IsAscii long_name
long_name-IsAscii = ground arith

cut_bytes : take_bytes 3 "claim" ≡ "cla"
unfolding take_bytes
cut_bytes = refl

truncate_pod_name_lem_example :
    (len long_name ≤ 63 → truncate_pod_name long_name ≡ long_name)
    × (63 < len long_name
        → (first rest cut : String) × (long_name ≡ first <> rest)
          × (len first ≡ 63)
          × (first ≡ truncate_pod_name long_name <> cut)
          × Within "-." cut
          × EndsOutside "-." (truncate_pod_name long_name))
    × (len (truncate_pod_name long_name) ≤ 63)
truncate_pod_name_lem_example = truncate_pod_name_lem long_name long_name-IsAscii
