-- ===== src/Transform/Grouping.antt =====
-- grouping.go: the resources of a stage by their type, and the documents of a multi-doc file.
-- Reading and writing the files is left out.
pub mod Laws
use crane_lib.Base.{ℕ, String, Bool, true, false, List, [], ◌∷◌, ◌++◌, map, Option, none, some}
use crane_lib.Base.{if◌then◌else◌, ◌==◌, string_eq, Result, ok, err, panic, ◌>>=◌}
use crane_lib.Base.Dict
use crane_lib.Base.Dict.{Dict}
use crane_lib.Sorting.{sort_by}
use crane_lib.Transform.ApiVersion.{Getters, get_resource_type_key}

pub record ResourceGroup (U : Type 0) : Type 0 where
  pub type_key : String
  pub resources : List U

module _ {U : Type 0} where
  -- `groupMap[typeKey] = append(groupMap[typeKey], resource)`; a missing key reads as nil.
  append_at : String → U → Dict String (List U) → Dict String (List U)
  append_at key resource m = elim (Dict.lookup key m) [
    | none ↦ Dict.insert key (resource ∷ []) m
    | some old ↦ Dict.insert key (old ++ (resource ∷ [])) m
  ]

  to_group : String × List U → ResourceGroup U
  to_group (key, resources) = record { type_key = key; resources = resources }

  unfoldable pub to_groups : Dict String (List U) → List (ResourceGroup U)
  unfolding to_group
  to_groups m = map to_group m

module _ {U : Type 0} (get : Getters U) where
  collect : Dict String (List U) → List U → Result (Dict String (List U))
  collect m [] = ok m
  collect m (resource ∷ rest) =
      get_resource_type_key get resource >>= λ key. collect (append_at key resource m) rest

  -- `iterate` is the order in which the runtime ranges over the map.
  unfoldable pub group_resources_by_type :
      (Dict String (List U) → Dict String (List U)) → List U → Result (List (ResourceGroup U))
  unfolding collect append_at to_groups
  group_resources_by_type iterate resources =
      collect [] resources >>= λ m. ok (sort_by (λ g. g.type_key) (to_groups (iterate m)))
