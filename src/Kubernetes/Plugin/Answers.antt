-- ===== src/Kubernetes/Plugin/Answers.antt =====
-- What the plugin answers, by itself and to the runner.
use crane_lib.Base.{String, true, List, [], ◌∷◌, ok, none}
use crane_lib.Base.{◌≡◌, refl, sym, ap, ◌∙◌, ok-injective}
use crane_lib.Base.Dict.{Dict}
use crane_lib.Json.{Members}
use crane_lib.Json.Patch.{Operation}
use crane_lib.Transform.JsonPatch.{PatchApi}
use crane_lib.Transform.Runner as Runner
use crane_lib.Transform.Runner.{
  Plugin, PluginRequest, PluginResponse, PluginOperation, Answer, answered, refused, Marshal,
}
use crane_lib.Transform.Runner.Runs.{run-white_out}
use crane_lib.Transform.Runner.Gather.{all_errors, any_white_out, all_resources}
use crane_lib.Kubernetes.{Api, GroupKind}
use crane_lib.Kubernetes.Options.Laws.{set_optional_fields_twice}
use crane_lib.Kubernetes.Options.{Options, set_optional_fields}
use crane_lib.Kubernetes.WhiteOuts.Reasons.{Reason, get_white_outs_iff}
use crane_lib.Kubernetes.Plugin.{run_with, answer_with, run, white_out}

abbrev pub request_for : Dict String String → Members → PluginRequest Members
request_for extras obj = record { unstructured = obj; extras = extras }

module _ (api : Api) (parse_group_kind : String → GroupKind)
    (errors_of : String → List String) where
  -- The plugin after some resources, each with the same extras.
  abbrev pub after : Dict String String → List Members → Options → Options
  after extras [] k = k
  after extras (obj ∷ rest) k =
      after extras rest (run api parse_group_kind errors_of (request_for extras obj) k).0

  set_optional_fields-after :
      (extras : Dict String String) (earlier : List Members) (k : Options)
      → set_optional_fields parse_group_kind errors_of extras (after extras earlier k)
        ≡ set_optional_fields parse_group_kind errors_of extras k
  unfolding run answer_with
  set_optional_fields-after extras [] k = refl
  set_optional_fields-after extras (obj ∷ rest) k =
      set_optional_fields-after extras rest _
      ∙ set_optional_fields_twice parse_group_kind errors_of extras k

  -- The answer for a resource does not depend on the resources that were asked for before it with
  -- the same extras, although the plugin keeps its options from each call to the next.
  pub run-after :
      (extras : Dict String String) (earlier : List Members) (obj : Members) (k : Options)
      → run api parse_group_kind errors_of (request_for extras obj) (after extras earlier k)
        ≡ run api parse_group_kind errors_of (request_for extras obj) k
  unfolding run
  run-after extras earlier obj k =
      ap (answer_with api obj) (set_optional_fields-after extras earlier k)

  -- The options that a call with these extras sets.
  abbrev pub options_for : Dict String String → Options → Options
  options_for extras k = (set_optional_fields parse_group_kind errors_of extras k).0

  pub run-white_out_response :
      (extras : Dict String String) (obj : Members) (k : Options)
      → (set_optional_fields parse_group_kind errors_of extras k).1 ≡ ok tt
      → Reason api (options_for extras k) obj
      → (run api parse_group_kind errors_of (request_for extras obj) k).1 ≡ ok white_out
  unfolding run answer_with run_with
  run-white_out_response extras obj k done reason =
      rw (done, (get_white_outs_iff api (options_for extras k) obj).1 reason) refl

  -- If the options are read without an error and there is a reason to leave the resource out, then
  -- a runner whose only plugin answers as this one says so, and writes no operations.
  pub run-leaves_out :
      {V : Type 0} (patch_api : PatchApi Operation V) (marshal : Marshal Operation)
      (r : Runner.Runner)
      (iterate : Dict String (PluginOperation Operation) → Dict String (PluginOperation Operation))
      (plugin : Plugin Members Operation) (resp : PluginResponse Members Operation) (obj : Members)
      (k : Options)
      → plugin.run (request_for r.optional_flags obj) ≡ answered resp
      → (run api parse_group_kind errors_of (request_for r.optional_flags obj) k).1 ≡ ok resp
      → (set_optional_fields parse_group_kind errors_of r.optional_flags k).1 ≡ ok tt
      → Reason api (options_for r.optional_flags k) obj
      → Runner.run patch_api marshal r iterate obj (plugin ∷ [])
        ≡ ok (
          record {
            transform_file = "[]";
            have_white_out = true;
            ignored_patches = "[]";
            new_resources = [];
          },
          none,
        )
  unfolding all_errors any_white_out all_resources
  run-leaves_out patch_api marshal r iterate plugin resp obj k answers same done reason =
      let is_white_out : resp ≡ white_out =
        ok-injective resp white_out
          (sym same ∙ run-white_out_response r.optional_flags obj k done reason) in
      let says : plugin.run (request_for r.optional_flags obj) ≡ answered white_out =
        answers ∙ ap answered is_white_out in
      run-white_out patch_api marshal r iterate obj (plugin ∷ []) (rw (says, all_errors) refl)
        (rw (says, any_white_out) refl)
      ∙ rw (says, any_white_out, all_resources) refl
