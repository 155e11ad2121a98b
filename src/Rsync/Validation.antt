-- ===== src/Rsync/Validation.antt =====
-- validation.go, and rsync.go: a new transfer, the mount path and the images.
pub mod Single
use Prim.Native.String.{◌++◌ as ◌<>◌}
use crane_lib.Base.{
  ℕ, String, Bool, true, false, ◌||◌, Option, none, some, List, [], ◌∷◌, ◌++◌, map, length, ltb,
}
use crane_lib.Base.{Result, ok, err, panic, ◌>>=◌, if◌then◌else◌, string_eq, ◌==◌}
use crane_lib.PvcList.{
  Claim, PvcPair, PvcPairList, source_claim, destination_claim, get_source_namespaces,
  get_destination_namespaces,
}
use crane_lib.Rsync.{TransferOptions, Aggregate}
use crane_lib.Rsync.Apply.{TransferOption, apply}

-- `md5` is the hexadecimal MD5 digest of Go's standard library. `value_errors` is
-- validation.IsValidLabelValue.
-- `p.Source()` and `p.Destination()`, whose methods are called next
unfoldable pub source_of : Option PvcPair → Result (Option Claim)
source_of none = panic
source_of (some p) = elim p.src [ none ↦ panic | some source ↦ ok source ]

unfoldable pub destination_of : Option PvcPair → Result (Option Claim)
destination_of none = panic
destination_of (some p) = elim p.dest [ none ↦ panic | some destination ↦ ok destination ]

-- `Claim().Name`
unfoldable pub claim_name : Option Claim → Result String
claim_name none = panic
claim_name (some claim) = ok claim.name

-- `md5` is the hexadecimal MD5 digest of Go's standard library. `value_errors` is
-- validation.IsValidLabelValue.
module _ (md5 : String → String) where
  unfoldable pub label_safe_name : Option Claim → String
  label_safe_name none = ""
  label_safe_name (some claim) = md5 claim.name

  unfoldable pub get_mount_path_for_pvc : Option Claim → Result String
  unfolding label_safe_name
  get_mount_path_for_pvc none = panic
  get_mount_path_for_pvc (some claim) =
      ok ("/mnt/" <> (claim.namespace <> ("/" <> label_safe_name (some claim))))

unfoldable pub namespace_errors : List String → List String → List (Option String)
namespace_errors src dest =
    if ltb 1 (length src) || ltb 1 (length dest)
    then some
        "rsync transfer does not support migrating PVCs belonging to multiple source/destination namespaces"
      ∷ []
    else []

unfoldable pub empty_errors : PvcPairList → List (Option String)
empty_errors [] = some "at least one pvc must be provided" ∷ []
empty_errors (p ∷ rest) = []

module _ (md5 : String → String) (value_errors : String → List String) (aggregate : Aggregate) where
  invalid_name : Option Claim → Result (List (Option String))
  unfolding label_safe_name claim_name
  invalid_name claim = elim (value_errors (label_safe_name md5 claim)) [
    | [] ↦ ok []
    | e ∷ errs ↦ claim_name claim >>= λ name.
        ok (some ("labelSafeName() for " <> (name <> " must be a valid label value")) ∷ [])
  ]

  unfoldable pub validate_pvc_name : Option PvcPair → Result (Option String)
  unfolding invalid_name source_of destination_of
  validate_pvc_name p = source_of p >>= λ src. invalid_name src >>= λ src_errs.
      destination_of p >>= λ dest.
      invalid_name dest >>= λ dest_errs. ok (aggregate (src_errs ++ dest_errs))

  -- The error for one pair, in a list.
  unfoldable pub pair_errors : Option PvcPair → Result (List (Option String))
  unfolding validate_pvc_name source_of claim_name
  pair_errors p = validate_pvc_name p >>= λ e. elim e [
    | none ↦ ok []
    | some message ↦ source_of p >>= λ src. claim_name src >>= λ name. ok (
        aggregate (
          some ("pvc name validation failed for pvc " <> (name <> " with error"))
          ∷ some message
          ∷ [])
        ∷ [])
  ]

  unfoldable pub all_pair_errors : PvcPairList → Result (List (Option String))
  unfolding pair_errors
  all_pair_errors [] = ok []
  all_pair_errors (p ∷ rest) =
      pair_errors p >>= λ e. all_pair_errors rest >>= λ errs. ok (e ++ errs)

  unfoldable pub validate_pvc_list : PvcPairList → Result (Option String)
  unfolding all_pair_errors get_source_namespaces get_destination_namespaces namespace_errors
      empty_errors
  validate_pvc_list pvc_list = get_source_namespaces pvc_list >>= λ src.
      get_destination_namespaces pvc_list >>= λ dest. all_pair_errors pvc_list >>= λ errs.
      ok (aggregate (namespace_errors src dest ++ (empty_errors pvc_list ++ errs)))

-- `getRsyncServerImage` and `getRsyncClientImage`; the default may be set when the program is
-- built.
unfoldable pub image_or_default : String → String → String
image_or_default default image = if image == "" then default else image

module _ {S R : Type 0} where
  unfoldable pub get_rsync_server_image : String → TransferOptions S R → String
  unfolding image_or_default
  get_rsync_server_image default options = image_or_default default options.rsync_server_image

  unfoldable pub get_rsync_client_image : String → TransferOptions S R → String
  unfolding image_or_default
  get_rsync_client_image default options = image_or_default default options.rsync_client_image

  -- `NewTransfer`, by its checks: the options that it starts from are empty.
  unfoldable pub new_transfer :
      Result (Option String)
      → (TransferOptions S R → TransferOptions S R × Option String)
      → TransferOptions S R
      → Result (TransferOptions S R)
  new_transfer validated apply_options nothing = validated >>= λ e. elim e [
    | some message ↦ err message
    | none ↦
        let (options, failed) = apply_options nothing in
        elim failed [ some message ↦ err message | none ↦ ok options ]
  ]
