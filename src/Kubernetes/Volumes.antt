-- ===== src/Kubernetes/Volumes.antt =====
-- kubernetes.go: new names for claims, and new registries for images.
use Prim.Native.Char.{code}
use Prim.Native.String.{◌++◌ as ◌<>◌}
use crane_lib.Base.{ℕ, suc, eqb, ltb, ◌&&◌, String, none, some, List, [], ◌∷◌, ◌++◌, length}
use crane_lib.Base.{Result, ok, ◌>>=◌, if◌then◌else◌, string_eq, ◌==◌}
use crane_lib.Base.Int.{pos}
use crane_lib.Base.Dict
use crane_lib.Base.Dict.{Dict}
use crane_lib.Strconv.{format_int}
use crane_lib.Json.Patch.{Operation}
use crane_lib.Transform.Util.{Volume, rename_pvcs, update_image_registry}
use crane_lib.Kubernetes.{Api, op_replace, op_remove, Subject}

abbrev pub pvc_path_cron_job : String
pvc_path_cron_job =
    "/spec/jobTemplate/spec/template/spec/volumes/%d/persistentVolumeClaim/claimName"

abbrev pub pvc_path_pod : String
pvc_path_pod = "/spec/volumes/%d/persistentVolumeClaim/claimName"

abbrev pub pvc_path_generic : String
pvc_path_generic = "/spec/template/spec/volumes/%d/persistentVolumeClaim/claimName"

abbrev pub pvc_path_template : String
pvc_path_template = "/spec/volumeClaimTemplates/%d/metadata/name"

skip_verb : String → String
skip_verb String.[] = ""
skip_verb (String.◌∷◌ verb s) = s

-- `fmt.Sprintf(path, i)` for a path with one "%d" or "%v"
unfoldable pub sprintf : String → ℕ → String
unfolding skip_verb
sprintf String.[] i = ""
sprintf (String.◌∷◌ c s) i =
    let rest = sprintf s i in
    if eqb (code c) b'%' then format_int (pos i) <> skip_verb s else String.◌∷◌ c rest

-- Two patches, the second only if the first was made.
infixr 6 ◌then_patch◌
abbrev pub ◌then_patch◌ :
    Result (List Operation) → Result (List Operation) → Result (List Operation)
first then_patch second = first >>= λ patch. second >>= λ patches. ok (patch ++ patches)

module _ (api : Api) where
  -- The decoded replace operation.
  unfoldable pub replace_patch : String → String → Result (List Operation)
  unfolding op_replace
  replace_patch path value = api.decode_patch (op_replace path value)

  unfoldable pub rename_claims : Dict String String → String → List Volume → Result (List Operation)
  unfolding sprintf replace_patch rename_pvcs
  rename_claims renames path volumes = rename_pvcs sprintf replace_patch renames path volumes

  rename_templates_from : Dict String String → String → ℕ → List String → Result (List Operation)
  unfolding sprintf replace_patch
  rename_templates_from renames path i [] = ok []
  rename_templates_from renames path i (name ∷ rest) =
      elim (Dict.lookup name renames) [
        | none ↦ ok []
        | some pvc_name ↦ replace_patch (sprintf path i) pvc_name
      ]
      then_patch rename_templates_from renames path (suc i) rest

  -- The claim templates, by their names.
  unfoldable pub rename_pvc_templates :
      Dict String String → String → List String → Result (List Operation)
  unfolding rename_templates_from
  rename_pvc_templates renames path names =
      if ltb 0 (length renames) && ltb 0 (length names)
      then rename_templates_from renames path 0 names
      else ok []

  -- util.UpdateImage
  unfoldable pub update_image : String → String → Result (List Operation)
  unfolding replace_patch
  update_image container_image_path updated_image_path =
      replace_patch container_image_path updated_image_path

  -- The loop over the images of the containers.
  unfoldable pub update_images :
      Dict String String → String → ℕ → List String → Result (List Operation)
  unfolding update_image_registry sprintf update_image
  update_images replacements path i [] = ok []
  update_images replacements path i (image ∷ rest) =
      (if (update_image_registry replacements image).1
        then update_image (sprintf path i) (update_image_registry replacements image).0
        else ok [])
      then_patch update_images replacements path (suc i) rest

  -- The loop over the subjects: those of the binding's own namespace lose the namespace.
  unfoldable pub remove_subject_namespaces : String → ℕ → List Subject → Result (List Operation)
  unfolding sprintf op_remove
  remove_subject_namespaces namespace i [] = ok []
  remove_subject_namespaces namespace i (subj ∷ rest) =
      (if (subj.kind == "ServiceAccount") && (subj.namespace == namespace)
        then api.decode_patch (op_remove (sprintf "/subjects/%d/namespace" i))
        else ok [])
      then_patch remove_subject_namespaces namespace (suc i) rest
