-- ===== src/Json/Patch.antt =====
-- The operations of RFC 6902 that the plugins make, and their effect on a value, where a path
-- leads through maps only. As apply/applier.go asks for, a remove of a missing value does nothing,
-- and an add makes the maps that its path needs.
use crane_lib.Base.{String, none, some, List, [], ◌∷◌, if◌then◌else◌}
use crane_lib.Base.{string_eq, ◌==◌}
use crane_lib.Json.{Value, object, Members, empty, entry, member, as_map, get}
use crane_lib.JsonPointer.{tokens}

pub data Operation : Type 0 where
  remove : String → Operation
  add : String → Value → Operation
  replace : String → Value → Operation

unfoldable pub without : String → Members → Members
without key empty = empty
without key (entry k v m) = let rest = without key m in if key == k then rest else entry k v rest

unfoldable pub with_member : String → Value → Members → Members
with_member key w empty = entry key w empty
with_member key w (entry k v m) =
    let rest = with_member key w m in if key == k then entry key w m else entry k v rest

-- The remove operation along a path through maps.
unfoldable pub remove_at : List String → Value → Value
unfolding without with_member member as_map
remove_at [] v = v
remove_at (key ∷ []) v = elim (as_map v) [ none ↦ v | some m ↦ object (without key m) ]
remove_at (key ∷ next ∷ path) v = elim (as_map v) [
  | none ↦ v
  | some m ↦ elim (member key m) [
    | none ↦ v
    | some w ↦ object (with_member key (remove_at (next ∷ path) w) m)
  ]
]

-- The add operation along a path through maps.
unfoldable pub add_at : List String → Value → Value → Value
unfolding with_member member as_map
add_at [] w v = w
add_at (key ∷ path) w v = elim (as_map v) [
  | none ↦ v
  | some m ↦ elim (member key m) [
    | none ↦ object (with_member key (add_at path w (object empty)) m)
    | some old ↦ object (with_member key (add_at path w old) m)
  ]
]

-- A replace of a missing value is refused; here it does nothing.
unfoldable pub apply_op : Operation → Value → Value
unfolding remove_at add_at get
apply_op (remove pointer) v = remove_at (tokens pointer) v
apply_op (add pointer w) v = add_at (tokens pointer) w v
apply_op (replace pointer w) v = elim (get (tokens pointer) v) [
  | none ↦ v
  | some _ ↦ add_at (tokens pointer) w v
]

unfoldable pub apply_all : List Operation → Value → Value
unfolding apply_op
apply_all [] v = v
apply_all (o ∷ ops) v = apply_all ops (apply_op o v)
