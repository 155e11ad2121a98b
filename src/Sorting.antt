-- ===== src/Sorting.antt =====
-- sort.Strings, and sort.Slice by a text key. Go's sort.Slice is not stable and its order of equal
-- keys is not fixed; this one keeps equal keys in the order of the input. The theorems of the
-- callers speak of the keys, or of inputs whose keys differ.
pub mod Laws
use crane_lib.Base.{String, Bool, true, false, List, [], ◌∷◌, if◌then◌else◌}
use crane_lib.Strings.{text_leb}

module _ {A : Type 0} (key : A → String) where
  unfoldable pub insert_by : A → List A → List A
  insert_by x [] = x ∷ []
  insert_by x (y ∷ ys) = if text_leb (key x) (key y) then x ∷ y ∷ ys else y ∷ insert_by x ys

  unfoldable pub sort_by : List A → List A
  unfolding insert_by
  sort_by [] = []
  sort_by (x ∷ xs) = insert_by x (sort_by xs)

unfoldable pub sort_strings : List String → List String
unfolding sort_by
sort_strings = sort_by (λ s. s)
