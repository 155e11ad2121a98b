-- ===== src/Kubernetes/Transforms.antt =====
-- kubernetes.go: `getKubernetesTransforms`, the operations for one resource.
use crane_lib.Base.{ltb, String, Bool, none, some, List, [], ◌∷◌, length}
use crane_lib.Base.{Result, ok, panic, ◌>>=◌, if◌then◌else◌}
use crane_lib.Json.{Members}
use crane_lib.Json.Patch.{Operation}
use crane_lib.Transform.DuckType.{is_pod_specable}
use crane_lib.Kubernetes.{
  Api, GroupKind, same_group_kind, present, absent, mistyped, op_remove, PodSpec, cron_job_gk,
  pod_gk, daemon_set_gk, deployment_gk, job_gk, replication_controller_gk, replica_set_gk,
  role_binding_gk, stateful_set_gk, service_account_gk, service_gk,
}
use crane_lib.Kubernetes.Options.{Options}
use crane_lib.Kubernetes.Strip.{strip_fields, remove_pod_fields}
use crane_lib.Kubernetes.Annotations.{add_annotations, remove_annotations}
use crane_lib.Kubernetes.Jobs.{remove_job_controller_uid, suspend_standalone_job}
use crane_lib.Kubernetes.NodePorts.{remove_service_fields}
use crane_lib.Kubernetes.Volumes.{
  ◌then_patch◌, rename_claims, rename_pvc_templates, update_images, remove_subject_namespaces,
  pvc_path_cron_job, pvc_path_pod, pvc_path_generic, pvc_path_template,
}

-- What is done for the resources of one kind only.
abbrev pub when : Bool → Result (List Operation) → Result (List Operation)
when test patch = if test then patch else ok []

module _ (api : Api) (k : Options) (obj : Members) where
  abbrev is_kind : GroupKind → Bool
  is_kind gk = same_group_kind gk (api.group_kind obj)

  unfoldable pub annotation_patches : Result (List Operation)
  unfolding add_annotations remove_annotations
  annotation_patches =
      when (ltb 0 (length k.add_annotations)) (add_annotations api k.add_annotations)
      then_patch when (ltb 0 (length k.remove_annotations))
          (remove_annotations api k.remove_annotations)

  unfoldable pub cron_job_patches : Result (List Operation)
  unfolding rename_claims
  cron_job_patches =
      api.cron_job obj >>= λ spec. rename_claims api k.pvc_rename_map pvc_path_cron_job spec.volumes

  unfoldable pub pod_patches : Result (List Operation)
  unfolding rename_claims remove_pod_fields
  pod_patches = api.pod obj >>= λ spec.
      (remove_pod_fields api
        then_patch rename_claims api k.pvc_rename_map pvc_path_pod spec.volumes)

  -- The claims of a DaemonSet, a Deployment or a ReplicaSet.
  unfoldable pub template_patches : Result PodSpec → Result (List Operation)
  unfolding rename_claims
  template_patches unmarshal =
      unmarshal >>= λ spec. rename_claims api k.pvc_rename_map pvc_path_generic spec.volumes

  unfoldable pub job_patches : Result (List Operation)
  unfolding template_patches remove_job_controller_uid suspend_standalone_job
  job_patches =
      template_patches (api.job obj)
      then_patch remove_job_controller_uid api obj
      then_patch suspend_standalone_job api obj

  -- `replicationController.Spec.Template.Spec` of no template panics.
  unfoldable pub replication_controller_patches : Result (List Operation)
  unfolding template_patches
  replication_controller_patches = api.replication_controller obj >>= λ template. elim template [
    | none ↦ panic
    | some spec ↦ template_patches (ok spec)
  ]

  unfoldable pub role_binding_patches : Result (List Operation)
  unfolding remove_subject_namespaces
  role_binding_patches =
      api.role_binding obj >>= λ rb. remove_subject_namespaces api rb.namespace 0 rb.subjects

  unfoldable pub stateful_set_patches : Result (List Operation)
  unfolding rename_claims rename_pvc_templates
  stateful_set_patches = api.stateful_set obj >>= λ set.
      (rename_claims api k.pvc_rename_map pvc_path_generic set.template.volumes
        then_patch rename_pvc_templates api k.pvc_rename_map pvc_path_template set.claim_templates)

  unfoldable pub service_account_patches : Result (List Operation)
  unfolding op_remove
  service_account_patches = elim (api.nested_slice obj ("secrets" ∷ [])) [
    | present _ ↦ api.decode_patch (op_remove "/secrets")
    | absent ↦ ok []
    | mistyped e ↦ ok []
  ]

  -- The two loops over the containers of a pod, under their paths.
  unfoldable pub container_patches : String → String → PodSpec → Result (List Operation)
  unfolding update_images
  container_patches path init_path spec =
      update_images api k.registry_replacement path 0 spec.images
      then_patch update_images api k.registry_replacement init_path 0 spec.init_images

  unfoldable pub image_patches : Result (List Operation)
  unfolding container_patches is_pod_specable
  image_patches =
      if is_kind pod_gk
      then (api.pod obj >>= λ spec.
          container_patches "/spec/containers/%v/image" "/spec/initContainers/%v/image" spec)
      else elim (is_pod_specable api.pod_template obj) [
        | none ↦ ok []
        | some spec ↦
            container_patches "/spec/template/spec/containers/%v/image"
              "/spec/template/spec/initContainers/%v/image" spec
      ]

  -- What depends on the kind of the resource.
  unfoldable pub kind_patches : Result (List Operation)
  unfolding cron_job_patches pod_patches template_patches job_patches replication_controller_patches
      role_binding_patches stateful_set_patches service_account_patches
  kind_patches =
      when (is_kind cron_job_gk) cron_job_patches
      then_patch when (is_kind pod_gk) pod_patches
      then_patch when (is_kind daemon_set_gk) (template_patches (api.daemon_set obj))
      then_patch when (is_kind deployment_gk) (template_patches (api.deployment obj))
      then_patch when (is_kind job_gk) job_patches
      then_patch when (is_kind replication_controller_gk) replication_controller_patches
      then_patch when (is_kind replica_set_gk) (template_patches (api.replica_set obj))
      then_patch when (is_kind role_binding_gk) role_binding_patches
      then_patch when (is_kind stateful_set_gk) stateful_set_patches
      then_patch when (is_kind service_account_gk) service_account_patches

  unfoldable pub get_kubernetes_transforms : Result (List Operation)
  unfolding strip_fields annotation_patches kind_patches image_patches remove_service_fields
  get_kubernetes_transforms =
      strip_fields api obj
      then_patch annotation_patches
      then_patch kind_patches
      then_patch when (ltb 0 (length k.registry_replacement)) image_patches
      then_patch when (is_kind service_gk) (remove_service_fields api obj)
