-- ===== src/Kubernetes/Plugin.antt =====
-- kubernetes.go: `Run`, and the plugin as the runner of transform/runner.go sees it.
pub mod Answers
use crane_lib.Base.{
  String, Bool, true, false, List, [], ◌∷◌, Result, ok, err, panic, ◌>>=◌, if◌then◌else◌,
}
use crane_lib.Base.Dict.{Dict}
use crane_lib.Json.{Members}
use crane_lib.Json.Patch.{Operation}
use crane_lib.Transform.Runner.{Plugin, PluginRequest, PluginResponse, Answer, answered, refused}
use crane_lib.Kubernetes.{Api, GroupKind}
use crane_lib.Kubernetes.Options.{Options, set_optional_fields}
use crane_lib.Kubernetes.WhiteOuts.{get_white_outs}
use crane_lib.Kubernetes.Transforms.{get_kubernetes_transforms}

abbrev pub white_out : PluginResponse Members Operation
white_out = record { is_white_out = true; patches = []; new_resources = [] }

abbrev pub response_of : List Operation → PluginResponse Members Operation
response_of patches = record { is_white_out = false; patches = patches; new_resources = [] }

module _ (api : Api) where
  -- Once the options are set.
  unfoldable pub run_with : Members → Options → Result (PluginResponse Members Operation)
  unfolding get_white_outs get_kubernetes_transforms
  run_with obj k =
      if get_white_outs api k obj
      then ok white_out
      else get_kubernetes_transforms api k obj >>= λ patches. ok (response_of patches)

  -- The plugin as it is left, and what the call returns, which is the error of the options if
  -- there was one.
  unfoldable pub answer_with :
      Members → Options × Result {0} Unit → Options × Result (PluginResponse Members Operation)
  unfolding run_with
  answer_with obj (k, done) = (k, done >>= λ _. run_with obj k)

  unfoldable pub run :
      (String → GroupKind)
      → (String → List String)
      → PluginRequest Members
      → Options
      → Options × Result (PluginResponse Members Operation)
  unfolding set_optional_fields answer_with
  run parse_group_kind errors_of request k =
      answer_with request.unstructured
        (set_optional_fields parse_group_kind errors_of request.extras k)
