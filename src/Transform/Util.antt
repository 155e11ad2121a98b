-- ===== src/Transform/Util.antt =====
-- transform/util: replacing the registry of an image (registry.go) and renaming the claims of
-- volumes (persistentvolumeclaims.go).
pub mod Laws
mod Tests
use Prim.Native.String.{◌++◌ as ◌<>◌}
use crane_lib.Base.{
  ℕ, zero, suc, ◌+◌, String, Bool, true, false, ◌&&◌, Option, none, some, List, [], ◌∷◌, ◌++◌,
  length, eqb, ltb,
}
use crane_lib.Base.{Result, ok, err, panic, ◌>>=◌, if◌then◌else◌, string_eq, take, drop}
use crane_lib.Base.Dict
use crane_lib.Base.Dict.{Dict}
use crane_lib.Strings.{split, join}

-- `parts[:i]` and `parts[i:]` of the image, joined again
unfoldable pub prefix_of : ℕ → List String → String
prefix_of i parts = join "/" (take i parts)

unfoldable pub replaced : String → ℕ → List String → String
replaced registry i parts =
    if eqb i (length parts) then registry else registry <> ("/" <> join "/" (drop i parts))

-- The loop, with `i` going down from the number of parts to 1.
unfoldable pub replace_from : Dict String String → List String → ℕ → String × Bool
unfolding prefix_of replaced
replace_from replacements parts zero = ("", false)
replace_from replacements parts (suc i) =
    let shorter = replace_from replacements parts i in
    elim (Dict.lookup (prefix_of (suc i) parts) replacements) [
      | some registry ↦ (replaced registry (suc i) parts, true)
      | none ↦ shorter
    ]

unfoldable pub update_image_registry : Dict String String → String → String × Bool
unfolding replace_from
update_image_registry replacements old_image_name =
    replace_from replacements (split b'/' old_image_name) (length (split b'/' old_image_name))

-- A pair with a name that validation finds errors in is refused.
unfoldable pub unless_errors {ℓ} : {A : Type ℓ} → String → List String → Result A → Result A
unless_errors pair [] next = next
unless_errors pair (e ∷ errs) next =
    err ("Invalid PVC remap: " <> (pair <> (", " <> join "," (e ∷ errs))))

-- `errors_of` is validation.IsDNS1123Subdomain.
module _ (errors_of : String → List String) where
  -- `split[1]` is out of range for a pair without a colon.
  unfoldable pub check_pair : String → List String → Result (String × String)
  unfolding unless_errors
  check_pair pair [] = panic
  check_pair pair (old ∷ []) = unless_errors pair (errors_of old) panic
  check_pair pair (old ∷ new ∷ rest) =
      unless_errors pair (errors_of old) (unless_errors pair (errors_of new) (ok (old, new)))

  unfoldable pub process_pairs : Dict String String → List String → Result (Dict String String)
  unfolding check_pair
  process_pairs pvc_map [] = ok pvc_map
  process_pairs pvc_map (pair ∷ rest) = check_pair pair (split b':' pair) >>= λ (old, new).
      process_pairs (Dict.insert old new pvc_map) rest

  unfoldable pub process_pvc_map : String → Result (Dict String String)
  unfolding process_pairs
  process_pvc_map pvc_string = process_pairs [] (split b',' pvc_string)

-- A volume, by the name of its claim if it has one.
pub record Volume : Type 0 where
  pub claim_name : Option String

-- `format` fills the index into the path, and `decode` reads the replace operation that is
-- printed for a path and a new name.
module _ {Op : Type 0} (format : String → ℕ → String) (decode : String → String → Result (List Op))
    (renames : Dict String String) (path : String) where
  rename_one : ℕ → Option String → Result (List Op)
  rename_one i none = ok []
  rename_one i (some claim) = elim (Dict.lookup claim renames) [
    | none ↦ ok []
    | some new ↦ decode (format path i) new
  ]

  rename_from : ℕ → List Volume → Result (List Op)
  unfolding rename_one
  rename_from i [] = ok []
  rename_from i (volume ∷ rest) =
      let later = rename_from (i + 1) rest in
      rename_one i volume.claim_name >>= λ patch. later >>= λ patches. ok (patch ++ patches)

  unfoldable pub rename_pvcs : List Volume → Result (List Op)
  unfolding rename_from
  rename_pvcs volumes =
      if ltb 0 (length renames) && ltb 0 (length volumes) then rename_from 0 volumes else ok []
