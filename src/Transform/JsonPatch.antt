-- ===== src/Transform/JsonPatch.antt =====
-- internal/jsonpatch/compare.go: when two JSON patches are the same. The operations themselves
-- are those of the json-patch library, a parameter.
pub mod Laws
use crane_lib.Base.{
  ℕ, String, Bool, true, false, List, [], ◌∷◌, map, Option, none, some, not, ◌&&◌, ◌||◌, length,
}
use crane_lib.Base.{if◌then◌else◌, ◌==◌, string_eq, eqb}
use crane_lib.Strings.{contains_text}

-- What a getter of the library returns: a value, or an error with its message and whether its
-- cause is `ErrMissing`.
pub data Reading {ℓ} (V : Type ℓ) : Type ℓ where
  found : V → Reading V
  failed : Bool → String → Reading V

-- The library's operations, and `reflect.DeepEqual`. `nil` is the value that comes with an error.
pub record PatchApi (Op V : Type 0) : Type 0 where
  pub kind : Op → String
  pub path : Op → Reading String
  pub from : Op → Reading String
  pub value_interface : Op → Reading V
  pub deep_equal : V → V → Bool
  pub nil : V

-- `errors.Cause(err) == jsonpatch.ErrMissing || strings.Contains(err.Error(), "missing value")`
unfoldable pub is_missing_error : Bool → String → Bool
is_missing_error missing message = missing || contains_text "missing value" message

unfoldable pub is_missing {ℓ} : {V : Type ℓ} → Reading V → Bool
unfolding is_missing_error
is_missing (found v) = false
is_missing (failed missing message) = is_missing_error missing message

-- Whether both readings succeed with the same text.
unfoldable pub same_text : Reading String → Reading String → Bool
same_text (found a) (found b) = a == b
same_text (found a) (failed c m) = false
same_text (failed c m) r = false

module _ {Op V : Type 0} (api : PatchApi Op V) where
  unfoldable pub value_of : Reading V → V
  value_of (found v) = v
  value_of (failed missing message) = api.nil

  unfoldable pub same_value : Reading V → Reading V → Bool
  unfolding value_of is_missing
  same_value r1 r2 =
      if is_missing r1
      then is_missing r2
      else if is_missing r2
      then false
      else api.deep_equal (value_of r1) (value_of r2)

  -- `move` and `copy` read a second path.
  unfoldable pub same_from : Op → Op → Bool
  unfolding same_text
  same_from o1 o2 =
      if (api.kind o1 == "move") || (api.kind o1 == "copy")
      then same_text (api.from o1) (api.from o2)
      else true

  unfoldable pub equal_operation : Op → Op → Bool
  unfolding same_text same_from same_value
  equal_operation o1 o2 =
      (api.kind o1 == api.kind o2)
      && same_text (api.path o1) (api.path o2)
      && same_from o1 o2
      && same_value (api.value_interface o1) (api.value_interface o2)

  -- The first operation that is not used yet and equals the given one is marked as used.
  use_match : Op → List (Bool × Op) → Option (List (Bool × Op))
  unfolding equal_operation
  use_match o [] = none
  use_match o ((used, o2) ∷ rest) =
      let later = use_match o rest in
      if not used && equal_operation o o2
      then some ((true, o2) ∷ rest)
      else elim later [ none ↦ none | some marked ↦ some ((used, o2) ∷ marked) ]

  match_all : List Op → List (Bool × Op) → Bool
  unfolding use_match
  match_all [] marked = true
  match_all (o ∷ rest) marked = elim (use_match o marked) [
    | none ↦ false
    | some marked' ↦ match_all rest marked'
  ]

  unused : List Op → List (Bool × Op)
  unused patch = map (λ o. (false, o)) patch

  unfoldable pub equal : List Op → List Op → Bool
  unfolding match_all unused
  equal patch1 patch2 =
      if eqb (length patch1) (length patch2) then match_all patch1 (unused patch2) else false
