-- ===== src/Kubernetes/Strip.antt =====
-- kubernetes.go: `stripFields`, which removes the fields that belong to the source cluster, and
-- `removePodFields`.
pub mod Applied
use crane_lib.Base.{
  String, Bool, true, false, Option, none, some, List, [], ◌∷◌, ◌++◌, Result, ok, err,
}
use crane_lib.Base.{panic, ◌>>=◌, ◌≡◌, refl, All, if◌then◌else◌}
use crane_lib.Json.{Members}
use crane_lib.Json.Patch.{Operation}
use crane_lib.JsonPointer.{pointer}
use crane_lib.Kubernetes.{Api, Nested, present, absent, mistyped, op_remove}

abbrev pub fields_to_strip : List (List String)
fields_to_strip =
    ("metadata" ∷ "uid" ∷ [])
    ∷ ("metadata" ∷ "selfLink" ∷ [])
    ∷ ("metadata" ∷ "resourceVersion" ∷ [])
    ∷ ("metadata" ∷ "creationTimestamp" ∷ [])
    ∷ ("metadata" ∷ "generation" ∷ [])
    ∷ ("metadata" ∷ "managedFields" ∷ [])
    ∷ ("metadata" ∷ "annotations" ∷ "kubectl.kubernetes.io/last-applied-configuration" ∷ [])
    ∷ ("metadata" ∷ "annotations" ∷ "batch.kubernetes.io/controller-uid" ∷ [])
    ∷ ("metadata" ∷ "annotations" ∷ "controller-uid" ∷ [])
    ∷ ("metadata" ∷ "labels" ∷ "batch.kubernetes.io/controller-uid" ∷ [])
    ∷ ("metadata" ∷ "labels" ∷ "controller-uid" ∷ [])
    ∷ ("status" ∷ [])
    ∷ []

module _ (api : Api) where
  -- The round for one field.
  unfoldable pub strip_field : Members → List String → Result (List Operation)
  unfolding pointer op_remove
  strip_field obj field = elim (api.nested_field obj field) [
    | present v ↦ api.decode_patch (op_remove (pointer field))
    | absent ↦ ok []
    | mistyped e ↦ err e
  ]

  unfoldable pub strip_each : Members → List (List String) → Result (List Operation)
  unfolding strip_field
  strip_each obj [] = ok []
  strip_each obj (field ∷ fields) =
      strip_field obj field >>= λ patch. strip_each obj fields >>= λ patches. ok (patch ++ patches)

  unfoldable pub strip_fields : Members → Result (List Operation)
  unfolding strip_each
  strip_fields obj = strip_each obj fields_to_strip

  unfoldable pub remove_pod_fields : Result (List Operation)
  unfolding op_remove
  remove_pod_fields = api.decode_patch (op_remove "/spec/nodeName") >>= λ node.
      api.decode_patch (op_remove "/spec/nodeSelector") >>= λ selector.
      api.decode_patch (op_remove "/spec/priority") >>= λ priority.
      ok ((node ++ selector) ++ priority)
