-- ===== src/Json.antt =====
-- What `map[string]interface{}` holds: the content of unstructured objects.
pub mod Laws
pub mod Added
pub mod Patch
use crane_lib.Base.{String, Bool, Option, none, some, List, [], ◌∷◌, if◌then◌else◌}
use crane_lib.Base.{string_eq, ◌==◌}
use crane_lib.Base.Int.{ℤ}

-- A number without a fraction is an `int64`, another is a `float64`, here by its whole part.
mutual
  pub data Value : Type 0 where
    null : Value
    boolean : Bool → Value
    integer : ℤ → Value
    float : ℤ → Value
    text : String → Value
    object : Members → Value
    slice : Elements → Value

  pub data Members : Type 0 where
    empty : Members
    entry : String → Value → Members → Members

  pub data Elements : Type 0 where
    nothing : Elements
    element : Value → Elements → Elements

-- `m[key]` with its `ok`
unfoldable pub member : String → Members → Option Value
member key empty = none
member key (entry k v m) = if key == k then some v else member key m

-- `v.(map[string]interface{})` with its `ok`
unfoldable pub as_map : Value → Option Members
as_map (object m) = some m
as_map _ = none

-- `v.([]interface{})` with its `ok`
unfoldable pub as_slice : Value → Option Elements
as_slice (slice es) = some es
as_slice _ = none

-- `v.(string)` with its `ok`
unfoldable pub as_text : Value → Option String
as_text (text s) = some s
as_text _ = none

-- The value at the end of a path through maps.
unfoldable pub get : List String → Value → Option Value
unfolding member as_map
get [] v = some v
get (key ∷ path) v = elim (as_map v) [
  | none ↦ none
  | some m ↦ elim (member key m) [ none ↦ none | some w ↦ get path w ]
]
