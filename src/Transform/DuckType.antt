-- ===== src/Transform/DuckType.antt =====
-- transform/types/duck_type.go: what an object looks like.
use crane_lib.Base.{
  String, Bool, true, false, Option, none, some, Result, ok, err, panic, string_eq,
}
use crane_lib.Json.{Value, Members, member, as_map}

-- `u.UnstructuredContent()["spec"]` as a map, and a field of it.
unfoldable pub spec_field : Members → String → Option Value
unfolding member as_map
spec_field u key = elim (member "spec" u) [
  | none ↦ none
  | some spec ↦ elim (as_map spec) [ none ↦ none | some spec_map ↦ member key spec_map ]
]

-- `marshal` is json.Marshal and json.Unmarshal into a PodTemplateSpec.
module _ {T : Type 0} (marshal : Value → Result T) where
  unfoldable pub is_pod_specable : Members → Option T
  unfolding spec_field
  is_pod_specable u = elim (spec_field u "template") [
    | none ↦ none
    | some template ↦ elim (marshal template) [ ok t ↦ some t | err e ↦ none | panic ↦ none ]
  ]

unfoldable pub has_status_object : Members → Bool
unfolding member as_map
has_status_object u = elim (member "status" u) [
  | none ↦ false
  | some status ↦ elim (as_map status) [ none ↦ false | some _ ↦ true ]
]
