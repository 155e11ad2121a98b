-- ===== src/Kubernetes/Jobs.antt =====
-- kubernetes.go: what a Job loses, and whether it is suspended.
pub mod Suspended
use Prim.Native.String.{◌++◌ as ◌<>◌}
use crane_lib.Base.{
  ℕ, ltb, String, Bool, true, false, not, ◌||◌, Option, none, some, List, [], ◌∷◌, ◌++◌,
}
use crane_lib.Base.{Result, ok, err, panic, ◌>>=◌, if◌then◌else◌, string_eq, ◌==◌}
use crane_lib.Base.Dict
use crane_lib.Json.{Members}
use crane_lib.Json.Patch.{Operation}
use crane_lib.JsonPointer.{escape_json_pointer}
use crane_lib.Kubernetes.{Api, Nested, present, absent, mistyped, op_remove}

abbrev pub crane_job_idempotent_annotation : String
crane_job_idempotent_annotation = "crane.konveyor.io/job-idempotent"

abbrev pub suspend_text : String
suspend_text = "[{\"op\": \"add\", \"path\": \"/spec/suspend\", \"value\": true}]"

-- The legacy key is the second.
abbrev pub controller_uid_keys : List String
controller_uid_keys = "batch.kubernetes.io/controller-uid" ∷ "controller-uid" ∷ []

-- `found`, with the error that comes instead.
unfoldable pub found {ℓ} : {A : Type ℓ} → Nested A → Result Bool
found (present a) = ok true
found absent = ok false
found (mistyped e) = err e

-- `!found || !value`
unfoldable pub not_set : Nested Bool → Result Bool
not_set (present b) = ok (not b)
not_set absent = ok true
not_set (mistyped e) = err e

module _ (api : Api) (obj : Members) where
  -- The loop over the two keys of the labels under a path.
  unfoldable pub remove_uid_labels : List String → String → List String → Result (List Operation)
  unfolding found escape_json_pointer op_remove
  remove_uid_labels labels prefix [] = ok []
  remove_uid_labels labels prefix (key ∷ rest) =
      found (api.nested_string obj (labels ++ (key ∷ []))) >>= λ is_found.
      (if is_found then api.decode_patch (op_remove (prefix <> escape_json_pointer key)) else ok [])
      >>= λ patch. remove_uid_labels labels prefix rest >>= λ patches. ok (patch ++ patches)

  -- Without a manual selector the whole selector goes, otherwise the two labels in it.
  unfoldable pub remove_selector : Bool → Result (List Operation)
  unfolding found op_remove remove_uid_labels
  remove_selector true = found (api.nested_map obj ("spec" ∷ "selector" ∷ [])) >>= λ selector_found.
      if selector_found then api.decode_patch (op_remove "/spec/selector") else ok []
  remove_selector false =
      remove_uid_labels ("spec" ∷ "selector" ∷ "matchLabels" ∷ []) "/spec/selector/matchLabels/"
        controller_uid_keys

  unfoldable pub remove_job_controller_uid : Result (List Operation)
  unfolding remove_selector not_set
  remove_job_controller_uid =
      not_set (api.nested_bool obj ("spec" ∷ "manualSelector" ∷ [])) >>= λ generated.
      remove_selector generated >>= λ selector.
      remove_uid_labels ("spec" ∷ "template" ∷ "metadata" ∷ "labels" ∷ [])
        "/spec/template/metadata/labels/" controller_uid_keys
      >>= λ labels. ok (selector ++ labels)

  unfoldable pub is_idempotent : Bool
  is_idempotent = elim (Dict.lookup crane_job_idempotent_annotation (api.annotations obj)) [
    | none ↦ false
    | some value ↦ value == "true"
  ]

  unfoldable pub suspend_standalone_job : Result (List Operation)
  unfolding is_idempotent not_set
  suspend_standalone_job =
      if ltb 0 (api.owner_references obj)
      then ok []
      else if is_idempotent
      then ok []
      else not_set (api.nested_bool obj ("spec" ∷ "suspend" ∷ [])) >>= λ runs.
          if runs then api.decode_patch suspend_text else ok []
