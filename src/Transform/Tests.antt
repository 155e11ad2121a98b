-- ===== src/Transform/Tests.antt =====
-- The parts of a stage, on small inputs.
use mathlib.Core.List.{Perm}
use mathlib.Core.List.Perm
use crane_lib.Base.{
  String, Bool, true, false, List, [], ◌∷◌, map, Option, none, some, ◌≡◌, refl, arith, ok, keep,
  ◌==◌, string_eq,
}
use crane_lib.Base.Dict
use crane_lib.Base.Dict.{Dict}
use crane_lib.Base.Int.{pos, negsuc}
use crane_lib.Sorting.{sort_by}
use crane_lib.Strings.{text_leb}
use crane_lib.Sorting.Laws.{IsSorted}
use crane_lib.Transform.ApiVersion.{
  Getters, split_api_version, parse_api_version, get_resource_type_key,
}
use crane_lib.Transform.ApiVersion.Laws.{non_empty, split_api_version_lem, parse_api_version_core}
use crane_lib.Transform.Grouping.{ResourceGroup, to_groups, group_resources_by_type}
use crane_lib.Transform.Grouping.Laws.{at, has_key, group_resources_by_type_lem}
use crane_lib.Transform.JsonPatch.{
  PatchApi, Reading, found, failed, equal, equal_operation, is_missing, same_text,
}
use crane_lib.Transform.JsonPatch.Laws.{Pairwise, equal-perm}
use crane_lib.Transform.Runner.{
  Runner, PluginOperation, Plugin, PluginRequest, plugin_operations_from_patch, Answer, answered,
  refused, Marshal, written, run, sanitize_patches, merge_all, check_value, replaces, reading,
}
use crane_lib.Transform.Runner.Winner.{IsHeld, on_path, sanitize_patches-IsWinner}
use crane_lib.Transform.Runner.Gather.{all_errors, any_white_out, all_operations}
use crane_lib.Transform.Runner.Runs.{request_of, unchanged, run-first_error}
use crane_lib.Strings.{split}

split_api_version_lem_example : split_api_version "apps/v1" ≡ non_empty (split b'/' "apps/v1")
split_api_version_lem_example = split_api_version_lem "apps/v1" (omega arith)

parse_api_version_core_example : parse_api_version "v1" ≡ ok ("", "v1")
parse_api_version_core_example = parse_api_version_core "v1" (omega arith) (omega arith) (λ h. cc)

record Resource : Type 0 where
  api_version : String
  kind : String
  name : String

abbrev get : Getters Resource
get = record {
  api_version = λ r. r.api_version;
  kind = λ r. r.kind;
  name = λ r. r.name;
  namespace = λ r. "shop";
}

abbrev service : String → Resource
service name = record { api_version = "v1"; kind = "Service"; name = name }

abbrev resources : List Resource
resources = service "b" ∷ record { api_version = "v1"; kind = "Pod"; name = "p" } ∷ service "a" ∷ []

abbrev groups : List (ResourceGroup Resource)
groups =
    record {
      type_key = "Pod";
      resources = record { api_version = "v1"; kind = "Pod"; name = "p" } ∷ [];
    }
    ∷ record { type_key = "Service"; resources = service "b" ∷ service "a" ∷ [] }
    ∷ []

grouped : group_resources_by_type get (λ m. m) resources ≡ ok groups
unfolding group_resources_by_type sort_by text_leb get_resource_type_key parse_api_version
    split_api_version string_eq Dict.insert Dict.lookup
grouped = refl

group_resources_by_type_lem_example :
    (m : Dict String (List Resource)) × Dict.NodupKeys m
    × Perm groups (to_groups m)
    × IsSorted (λ g. g.type_key) groups
    × ((k : String) → at k m ≡ keep (has_key get k) resources)
group_resources_by_type_lem_example =
    group_resources_by_type_lem get (λ m. m) resources groups (λ m. Perm.refl m) grouped

record Op : Type 0 where
  op : String
  on : String
  value : Option String

abbrev value_of : Option String → Reading String
value_of none = failed true "missing value"
value_of (some v) = found v

abbrev api : PatchApi Op String
api = record {
  kind = λ o. o.op;
  path = λ o. found o.on;
  from = λ o. failed true "missing";
  value_interface = λ o. value_of o.value;
  deep_equal = λ v w. v == w;
  nil = "";
}

abbrev removal : String → Op
removal path = record { op = "remove"; on = path; value = none }

abbrev addition : String → String → Op
addition path value = record { op = "add"; on = path; value = some value }

equal_patches :
    equal api (removal "/a" ∷ addition "/b" "x" ∷ []) (addition "/b" "x" ∷ removal "/a" ∷ []) ≡ true
unfolding equal equal_operation string_eq is_missing same_text
equal_patches = refl

equal-perm_example :
    (matched : List Op) × Pairwise
      (equal_operation api)
      (removal "/a" ∷ addition "/b" "x" ∷ [])
      matched
    × Perm (addition "/b" "x" ∷ removal "/a" ∷ []) matched
equal-perm_example =
    equal-perm api (removal "/a" ∷ addition "/b" "x" ∷ []) (addition "/b" "x" ∷ removal "/a" ∷ [])
      equal_patches

abbrev runner : Runner
runner = record {
  plugin_priorities = ("openshift", negsuc 0) ∷ ("kubernetes", pos 2) ∷ [];
  optional_flags = [];
}

abbrev from_plugin : String → Op → PluginOperation Op
from_plugin plugin op = record { plugin_name = plugin; operation = op }

abbrev asked : List (PluginOperation Op)
asked =
    from_plugin "other" (removal "/a")
    ∷ from_plugin "kubernetes" (addition "/a" "x")
    ∷ from_plugin "openshift" (addition "/a" "y")
    ∷ []

abbrev lost : List (PluginOperation Op)
lost = from_plugin "other" (removal "/a") ∷ from_plugin "kubernetes" (addition "/a" "x") ∷ []

sanitized : sanitize_patches api runner (λ m. m) asked ≡ ok (addition "/a" "y" ∷ [], lost)
unfolding sanitize_patches merge_all equal_operation string_eq is_missing same_text check_value
    replaces reading Dict.insert Dict.lookup Dict.values
sanitized = refl

sanitize_patches-IsWinner_example :
    (m : Dict String (PluginOperation Op)) × Dict.NodupKeys m
    × ((addition "/a" "y" ∷ []) ≡ map (λ o. o.operation) (Dict.values m))
    × ((key : String) → IsHeld api runner (Dict.lookup key m) (keep (on_path api runner key) asked))
sanitize_patches-IsWinner_example =
    sanitize_patches-IsWinner api runner (λ m. m) asked (addition "/a" "y" ∷ []) lost sanitized

-- A plugin with a fixed answer.
abbrev plugin : String → Answer Resource Op → Plugin Resource Op
plugin name answer = record { name = name; run = λ request. answer }

abbrev answer : Bool → List Op → List Resource → Answer Resource Op
answer white_out ops news =
    answered (record { is_white_out = white_out; patches = ops; new_resources = news })

abbrev failing : List (Plugin Resource Op)
failing =
    plugin "openshift" (answer false [] (service "n" ∷ []))
    ∷ plugin "kubernetes" (refused "no kind")
    ∷ plugin "other" (refused "later")
    ∷ []

abbrev whitening : List (Plugin Resource Op)
whitening =
    plugin "openshift" (answer false (removal "/a" ∷ []) [])
    ∷ plugin "kubernetes" (answer true [] [])
    ∷ []

abbrev agreeing : List (Plugin Resource Op)
agreeing =
    plugin "other" (answer false (removal "/a" ∷ []) [])
    ∷ plugin "kubernetes" (answer false (addition "/a" "x" ∷ []) (service "n" ∷ []))
    ∷ plugin "openshift" (answer false (addition "/a" "y" ∷ []) [])
    ∷ []

abbrev marshal : Marshal Op
marshal = record {
  marshal_patches = λ ops. written "patch";
  marshal_ignored = λ ops. written "lost";
}

abbrev request : List (Plugin Resource Op) → PluginRequest Resource
request plugins = request_of api marshal runner (λ m. m) (service "a") plugins

failing_errors : all_errors (request failing) failing ≡ "no kind" ∷ "later" ∷ []
unfolding all_errors
failing_errors = refl

run-first_error_example :
    run api marshal runner (λ m. m) (service "a") failing
    ≡ ok (unchanged api marshal runner (λ m. m) (service "a") failing, some "no kind")
run-first_error_example =
    run-first_error api marshal runner (λ m. m) (service "a") failing "no kind" ("later" ∷ [])
      failing_errors

whitening_errors : all_errors (request whitening) whitening ≡ []
unfolding all_errors
whitening_errors = refl

whitening_white_out : any_white_out (request whitening) whitening ≡ true
unfolding any_white_out
whitening_white_out = refl

agreeing_errors : all_errors (request agreeing) agreeing ≡ []
unfolding all_errors
agreeing_errors = refl

agreeing_white_out : any_white_out (request agreeing) agreeing ≡ false
unfolding any_white_out
agreeing_white_out = refl

agreeing_operations : all_operations (request agreeing) agreeing ≡ asked
unfolding all_operations plugin_operations_from_patch
agreeing_operations = refl
