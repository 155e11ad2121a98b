-- ===== src/Kubernetes/Annotations.antt =====
-- kubernetes.go: `addAnnotations` and `removeAnnotations`, which print one patch for all the
-- annotations. Neither escapes the key, so a key with "/" in it is read as a longer path.
use Prim.Native.String.{◌++◌ as ◌<>◌}
use crane_lib.Base.{String, Bool, true, false, List, [], ◌∷◌, Result, if◌then◌else◌}
use crane_lib.Base.Dict.{Dict}
use crane_lib.Json.Patch.{Operation}
use crane_lib.Kubernetes.{Api}

-- `annotationInitial` and `annotationNext` behind the text so far
add_annotation_text : Bool → String → String → String → String
add_annotation_text first patch_json key value =
    patch_json
    <> ((if first then "" else ",")
        <> ("\n{\"op\": \"add\", \"path\": \"/metadata/annotations/"
            <> (key <> ("\", \"value\": \"" <> (value <> "\"}")))))

-- The loop over the map. The order of the list is the one that the runtime picks.
add_annotation_texts : Bool → String → Dict String String → String
unfolding add_annotation_text
add_annotation_texts first patch_json [] = patch_json
add_annotation_texts first patch_json ((key, value) ∷ rest) =
    add_annotation_texts false (add_annotation_text first patch_json key value) rest

unfoldable pub add_annotations : Api → Dict String String → Result (List Operation)
unfolding add_annotation_texts
add_annotations api annotations =
    api.decode_patch (add_annotation_texts true "[" annotations <> "]")

-- `removeAnnotationInitial` and `removeAnnotationNext`
remove_annotation_text : Bool → String → String → String
remove_annotation_text first patch_json annotation =
    patch_json
    <> ((if first then "" else ",")
        <> ("\n{\"op\": \"remove\", \"path\": \"/metadata/annotations/" <> (annotation <> "\"}")))

remove_annotation_texts : Bool → String → List String → String
unfolding remove_annotation_text
remove_annotation_texts first patch_json [] = patch_json
remove_annotation_texts first patch_json (annotation ∷ rest) =
    remove_annotation_texts false (remove_annotation_text first patch_json annotation) rest

unfoldable pub remove_annotations : Api → List String → Result (List Operation)
unfolding remove_annotation_texts
remove_annotations api annotations =
    api.decode_patch (remove_annotation_texts true "[" annotations <> "]")
