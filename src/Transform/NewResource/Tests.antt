-- ===== src/Transform/NewResource/Tests.antt =====
-- A small Deployment.
use crane_lib.Base.{String, some, [], ◌∷◌, ◌≡◌, refl, string_eq}
use crane_lib.Base.Dict
use crane_lib.Base.Dict.{Dict}
use crane_lib.Transform.NewResource.{Node, fields, value, build_skeleton, build_patch_ops}
use crane_lib.Transform.NewResource.Applies.{apply_ops}
use crane_lib.Transform.NewResource.Restores.{Restored, apply_ops-build_patch_ops}

abbrev metadata : Dict String String
metadata = ("name", "app") ∷ ("labels", "team=web") ∷ ("a/b", "c") ∷ []

abbrev resource : Dict String (Node String)
resource =
    ("kind", value "Deployment")
    ∷ ("spec", value "replicas: 3")
    ∷ ("metadata", fields metadata)
    ∷ []

metadata_found : Dict.lookup "metadata" resource ≡ some (fields metadata)
unfolding Dict.lookup string_eq
metadata_found = refl

apply_ops-build_patch_ops_example :
    (d : Dict String (Node String)) × (apply_ops
        (build_patch_ops resource (build_skeleton resource))
        (build_skeleton resource)
      ≡ some d)
    × Restored resource metadata d
apply_ops-build_patch_ops_example = apply_ops-build_patch_ops resource metadata metadata_found
