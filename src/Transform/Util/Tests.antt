-- ===== src/Transform/Util/Tests.antt =====
-- Images and claims.
use Prim.Native.String.{◌++◌ as ◌<>◌}
use crane_lib.Base.{◌⊎◌, ℕ, ◌<◌, ◌≤◌, String, true, none, some, List, [], ◌∷◌, length}
use crane_lib.Base.{ok, ◌≡◌, refl, subst, string_eq, if◌then◌else◌, ◌==◌, arith}
use crane_lib.Base.Dict
use crane_lib.Base.Dict.{Dict}
use crane_lib.Strings.{split, split_from, join}
use crane_lib.Transform.Util.{prefix_of, update_image_registry, process_pvc_map}
use crane_lib.Transform.Util.Laws.{
  Unknown, IsValid, update_image_registry-longest, process_pvc_map-IsValid,
}

abbrev registries : Dict String String
registries = ("quay.io/team", "registry.local/apps") ∷ []

known :
    Dict.lookup (prefix_of 2 (split b'/' "quay.io/team/app:1")) registries
    ≡ some "registry.local/apps"
unfolding prefix_of split split_from join Dict.lookup string_eq
known = refl

whole : Dict.lookup (prefix_of 3 (split b'/' "quay.io/team/app:1")) registries ≡ none
unfolding prefix_of split split_from join Dict.lookup string_eq
whole = refl

only_whole : (j : ℕ) → 2 < j → j ≤ length (split b'/' "quay.io/team/app:1") → 3 ≡ j
unfolding split split_from
only_whole j lt le = omega arith

longer-Unknown :
    Unknown registries
      (split b'/' "quay.io/team/app:1")
      2
      (length (split b'/' "quay.io/team/app:1"))
longer-Unknown j lt le =
    subst (λ i. Dict.lookup (prefix_of i (split b'/' "quay.io/team/app:1")) registries ≡ none)
      (only_whole j lt le) whole

update_image_registry-longest_example :
    (rest : String) × ("quay.io/team/app:1" ≡ prefix_of 2 (split b'/' "quay.io/team/app:1") <> rest)
    × ((rest ≡ "") ⊎ ((more : String) × (rest ≡ "/" <> more)))
    × (update_image_registry registries "quay.io/team/app:1"
        ≡ ("registry.local/apps" <> rest, true))
update_image_registry-longest_example =
    update_image_registry-longest registries "quay.io/team/app:1" 2 "registry.local/apps"
      (omega arith) (unfold split split_from in omega arith) known longer-Unknown

-- A validation that refuses the empty name.
abbrev errors_of : String → List String
errors_of name = if name == "" then "empty" ∷ [] else []

abbrev accepted_map : Dict String String
accepted_map = ("a", "b") ∷ []

accepted : process_pvc_map errors_of "a:b" ≡ ok accepted_map
unfolding process_pvc_map split split_from string_eq Dict.insert
accepted = refl

entry : Dict.lookup "a" accepted_map ≡ some "b"
unfolding Dict.lookup string_eq
entry = refl

process_pvc_map-IsValid_example : IsValid errors_of "a" "b"
process_pvc_map-IsValid_example =
    process_pvc_map-IsValid errors_of "a:b" accepted_map accepted "a" "b" entry

image_only : Dict.lookup (prefix_of 1 (split b'/' "busybox")) registries ≡ none
unfolding prefix_of split split_from join Dict.lookup string_eq
image_only = refl

first_only : (j : ℕ) → 0 < j → j ≤ length (split b'/' "busybox") → 1 ≡ j
unfolding split split_from
first_only j lt le = omega arith

busybox-Unknown : Unknown registries (split b'/' "busybox") 0 (length (split b'/' "busybox"))
busybox-Unknown j lt le =
    subst (λ i. Dict.lookup (prefix_of i (split b'/' "busybox")) registries ≡ none)
      (first_only j lt le) image_only
