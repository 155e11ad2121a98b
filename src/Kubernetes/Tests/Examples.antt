-- ===== src/Kubernetes/Tests/Examples.antt =====
-- The theorems at a Secret and a Job.
use crane_lib.Base.{String, true, false, none, some, List, [], ◌∷◌, All, if◌then◌else◌}
use crane_lib.Base.{ok, string_eq, ◌==◌, ◌≡◌, refl, ◌↔◌, arith}
use crane_lib.Base.Dict
use crane_lib.Base.Dict.{Dict}
use crane_lib.Base.Int.{pos}
use crane_lib.Strings.{trim_suffix, join, replace_all}
use crane_lib.JsonPointer.{pointer, escape_keys, escape_json_pointer}
use crane_lib.Transform.JsonPatch.{PatchApi, found}
use crane_lib.Transform.Runner as Runner
use crane_lib.Transform.Runner.{PluginOperation, Plugin, PluginRequest, answered, Marshal, written}
use crane_lib.Json.{boolean, integer, text, object, Members, empty, entry, get, member, as_map}
use crane_lib.Json.Patch.{Operation, remove, add, apply_all}
use crane_lib.Json.Laws.{apart}
use crane_lib.Kubernetes.{Api, GroupKind, secret_gk, job_gk, op_remove}
use crane_lib.Kubernetes.Options.Laws.{set_optional_fields_documented}
use crane_lib.Kubernetes.Options.{Options, set_optional_fields, extra, metadata, set_fields}
use crane_lib.Kubernetes.WhiteOuts.{get_white_outs}
use crane_lib.Kubernetes.WhiteOuts.Reasons.{Reason, has_owner, get_white_outs_iff}
use crane_lib.Kubernetes.Strip.{fields_to_strip, strip_fields}
use crane_lib.Kubernetes.Strip.Applied.{apply_all-strip_fields}
use crane_lib.Kubernetes.Jobs.{suspend_standalone_job, not_set}
use crane_lib.Kubernetes.Jobs.Suspended.{
  suspend_path, left_to_run, apply_all-suspend_standalone_job,
}
use crane_lib.Kubernetes.Plugin.{run, white_out}
use crane_lib.Kubernetes.Plugin.Answers.{
  request_for, after, run-after, run-leaves_out, options_for, run-white_out_response,
}
use crane_lib.Kubernetes.Tests.{api_with, decodes, reads, bool_reads, decode}

abbrev secret : Members
secret = entry "kind" (text "Secret") (
    entry "metadata" (object (entry "name" (text "token") (entry "uid" (text "7f3a") empty)))
      (entry "status" (object empty) empty))

abbrev secret_api : Api
secret_api = api_with secret_gk "token" [] 1 empty

abbrev secret_ops : List Operation
secret_ops = remove "/metadata/uid" ∷ remove "/status" ∷ []

secret_stripped : strip_fields secret_api secret ≡ ok secret_ops
unfolding strip_fields get member as_map string_eq pointer escape_keys escape_json_pointer
    replace_all join decode op_remove trim_suffix
secret_stripped = refl

name_apart : All (λ f. apart ("metadata" ∷ "name" ∷ []) f ≡ true) fields_to_strip
unfolding string_eq
name_apart = (
  refl,
  (refl, (refl, (refl, (refl, (refl, (refl, (refl, (refl, (refl, (refl, (refl, tt))))))))))),
)

apply_all-strip_fields_example :
    All (λ f. get f (apply_all secret_ops (object secret)) ≡ none) fields_to_strip
    × (get ("metadata" ∷ "name" ∷ []) (apply_all secret_ops (object secret))
        ≡ get ("metadata" ∷ "name" ∷ []) (object secret))
apply_all-strip_fields_example =
    apply_all-strip_fields secret_api (decodes secret_gk "token" [] 1 empty)
      (reads secret_gk "token" [] 1 empty) secret secret_ops ("metadata" ∷ "name" ∷ [])
      secret_stripped name_apart

abbrev no_options : Options
no_options = record {
  add_annotations = [];
  remove_annotations = [];
  registry_replacement = [];
  disable_whiteout_owned = false;
  extra_whiteouts = [];
  include_only = [];
  strip_default_rbac = false;
  strip_default_ca_bundle = false;
  pvc_rename_map = [];
}

get_white_outs_iff_example :
    (get_white_outs secret_api no_options secret ≡ true) ↔ Reason secret_api no_options secret
get_white_outs_iff_example = get_white_outs_iff secret_api no_options secret

abbrev job_spec : Members
job_spec = entry "parallelism" (integer (pos 1)) empty

abbrev job : Members
job = entry "kind" (text "Job") (entry "spec" (object job_spec) empty)

abbrev job_api : Api
job_api = api_with job_gk "import" [] 0 empty

abbrev job_ops : List Operation
job_ops = add "/spec/suspend" (boolean true) ∷ []

job_has_spec : member "spec" job ≡ some (object job_spec)
unfolding member string_eq
job_has_spec = refl

job_suspended : suspend_standalone_job job_api job ≡ ok job_ops
unfolding suspend_standalone_job not_set get member as_map string_eq decode Dict.lookup
job_suspended = refl

job_decodes :
    job_api.decode_patch "[{\"op\": \"add\", \"path\": \"/spec/suspend\", \"value\": true}]"
    ≡ ok (add "/spec/suspend" (boolean true) ∷ [])
unfolding decode string_eq
job_decodes = refl

parallelism_apart : apart ("spec" ∷ "parallelism" ∷ []) suspend_path ≡ true
unfolding string_eq
parallelism_apart = refl

apply_all-suspend_standalone_job_example :
    (get suspend_path (apply_all job_ops (object job))
      ≡ (if left_to_run job_api job then get suspend_path (object job) else some (boolean true)))
    × (get ("spec" ∷ "parallelism" ∷ []) (apply_all job_ops (object job))
        ≡ get ("spec" ∷ "parallelism" ∷ []) (object job))
apply_all-suspend_standalone_job_example =
    apply_all-suspend_standalone_job job_api (bool_reads job_gk "import" [] 0 empty) job_decodes job
      job_spec job_has_spec job_ops ("spec" ∷ "parallelism" ∷ []) job_suspended parallelism_apart

abbrev parse_gk : String → GroupKind
parse_gk s = record { group = ""; kind = s }

abbrev no_errors : String → List String
no_errors name = []

abbrev extras : Dict String String
extras = ("include-only", "Secret") ∷ []

abbrev more_extras : Dict String String
more_extras = ("colour", "blue") ∷ extras

set_optional_fields_documented_example :
    set_optional_fields parse_gk no_errors extras no_options
    ≡ set_optional_fields parse_gk no_errors more_extras no_options
set_optional_fields_documented_example =
    set_optional_fields_documented parse_gk no_errors "v1" extras more_extras no_options (
      unfold metadata Dict.lookup string_eq in
      (refl, (refl, (refl, (refl, (refl, (refl, (refl, (refl, (refl, tt))))))))))

run-after_example :
    run secret_api parse_gk no_errors
      (request_for extras secret)
      (after secret_api parse_gk no_errors extras (job ∷ []) no_options)
    ≡ run secret_api parse_gk no_errors (request_for extras secret) no_options
run-after_example = run-after secret_api parse_gk no_errors extras (job ∷ []) secret no_options

abbrev patch_api : PatchApi Operation String
patch_api = record {
  kind = λ o. "remove";
  path = λ o. found "/status";
  from = λ o. found "";
  value_interface = λ o. found "";
  deep_equal = λ a b. a == b;
  nil = "";
}

abbrev marshal : Marshal Operation
marshal = record { marshal_patches = λ ops. written "[...]"; marshal_ignored = λ ops. written "[]" }

abbrev runner : Runner.Runner
runner = record { plugin_priorities = []; optional_flags = [] }

abbrev plugin : Plugin Members Operation
plugin = record { name = "KubernetesPlugin"; run = λ request. answered white_out }

secret_read : (set_optional_fields parse_gk no_errors [] no_options).1 ≡ ok tt
unfolding set_optional_fields extra Dict.lookup string_eq
secret_read = refl

secret-Reason : Reason secret_api (options_for secret_api parse_gk no_errors [] no_options) secret
unfolding set_optional_fields set_fields extra Dict.lookup string_eq
secret-Reason = has_owner refl (omega arith)

secret_run : (run secret_api parse_gk no_errors (request_for [] secret) no_options).1 ≡ ok white_out
secret_run =
    run-white_out_response secret_api parse_gk no_errors [] secret no_options secret_read
      secret-Reason

run-leaves_out_example :
    Runner.run patch_api marshal runner (λ d. d) secret (plugin ∷ [])
    ≡ ok (
      record {
        transform_file = "[]";
        have_white_out = true;
        ignored_patches = "[]";
        new_resources = [];
      },
      none,
    )
run-leaves_out_example =
    run-leaves_out secret_api parse_gk no_errors patch_api marshal runner (λ d. d) plugin white_out
      secret no_options refl secret_run secret_read secret-Reason
