-- ===== src/Transform/NewResource.antt =====
-- new_resource.go: a resource that a plugin made becomes a skeleton and a patch. What the code
-- looks into is the top level of the object and its metadata; values below are of any type.
pub mod Applies
pub mod Filled
pub mod Restores
mod Tests
use Prim.Native.String.{◌++◌ as ◌<>◌}
use crane_lib.Base.{String, Option, none, some, List, [], ◌∷◌, ◌++◌, Result, ok, err, ◌>>=◌}
use crane_lib.Base.{string_eq}
use crane_lib.Base.Dict
use crane_lib.Base.Dict.{Dict}
use crane_lib.Sorting.{sort_strings}
use crane_lib.JsonPointer.{escape_json_pointer}

-- A value at the top level: a `map[string]interface{}`, or anything else.
pub data Node (V : Type 0) : Type 0 where
  fields : Dict String V → Node V
  value : V → Node V

pub record PatchOp (V : Type 0) : Type 0 where
  pub op : String
  pub path : String
  pub value : Node V

-- `v.(map[string]interface{})` of what a key holds
unfoldable pub as_fields : {V : Type 0} → Option (Node V) → Option (Dict String V)
as_fields none = none
as_fields (some (fields m)) = some m
as_fields (some (value v)) = none

-- `if v, ok := full[key]; ok { skel[key] = v }`
unfoldable pub copy_key : {W : Type 0} → String → Dict String W → Dict String W → Dict String W
copy_key key full skel = elim (Dict.lookup key full) [
  | none ↦ skel
  | some v ↦ Dict.insert key v skel
]

unfoldable pub sorted_keys : {W : Type 0} → Dict String W → List String
sorted_keys m = sort_strings (Dict.keys m)

module _ {V : Type 0} where
  unfoldable pub skeleton_metadata : Dict String V → Dict String V
  unfolding copy_key
  skeleton_metadata full = copy_key "namespace" full (copy_key "name" full [])

  unfoldable pub build_skeleton : Dict String (Node V) → Dict String (Node V)
  unfolding copy_key as_fields skeleton_metadata
  build_skeleton full =
      let skel = copy_key "kind" full (copy_key "apiVersion" full []) in
      elim (as_fields (Dict.lookup "metadata" full)) [
        | none ↦ skel
        | some metadata ↦ Dict.insert "metadata" (fields (skeleton_metadata metadata)) skel
      ]

  unfoldable pub add_op : String → String → Node V → PatchOp V
  add_op prefix key v = record { op = "add"; path = prefix <> escape_json_pointer key; value = v }

  -- The loop over the keys of one level. The keys are those of `full`, so each is found in it.
  unfoldable pub missing_ops :
      {W : Type 0}
      → (W → Node V)
      → String
      → Dict String W
      → Dict String W
      → List String
      → List (PatchOp V)
  unfolding add_op
  missing_ops node prefix full skel [] = []
  missing_ops node prefix full skel (key ∷ keys) =
      let rest = missing_ops node prefix full skel keys in
      elim (Dict.lookup key skel) [
        | some _ ↦ rest
        | none ↦ elim (Dict.lookup key full) [
          | none ↦ rest
          | some v ↦ add_op prefix key (node v) ∷ rest
        ]
      ]

  unfoldable pub build_patch_ops : Dict String (Node V) → Dict String (Node V) → List (PatchOp V)
  unfolding missing_ops sorted_keys as_fields
  build_patch_ops full skeleton =
      let top = missing_ops (λ v. v) "/" full skeleton (sorted_keys full) in
      elim (as_fields (Dict.lookup "metadata" skeleton)) [
        | none ↦ top
        | some skel_meta ↦ elim (as_fields (Dict.lookup "metadata" full)) [
          | none ↦ top
          | some full_meta ↦
              missing_ops value "/metadata/" full_meta skel_meta (sorted_keys full_meta) ++ top
        ]
      ]

  -- `decode` is json.Marshal and jsonpatch.DecodePatch of the operations; no operations give the
  -- nil patch.
  unfoldable pub split_new_resource_to_skeleton_and_patch :
      {P : Type 0}
      → (List (PatchOp V) → Result P)
      → P
      → Option (Dict String (Node V))
      → Result (Dict String (Node V) × P)
  unfolding build_patch_ops build_skeleton
  split_new_resource_to_skeleton_and_patch decode nil none = err "resource has nil Object"
  split_new_resource_to_skeleton_and_patch decode nil (some full) =
      elim (build_patch_ops full (build_skeleton full)) [
        | [] ↦ ok (build_skeleton full, nil)
        | op ∷ ops ↦ decode (op ∷ ops) >>= λ patch. ok (build_skeleton full, patch)
      ]
