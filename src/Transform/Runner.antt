-- ===== src/Transform/Runner.antt =====
-- runner.go: `Runner.Run` asks every plugin for its operations and merges the answers;
-- `sanitizePatches` keeps one operation per path.
pub mod Gather
pub mod Winner
pub mod Runs
use crane_lib.Base.{
  ℕ, String, Bool, true, false, List, [], ◌∷◌, ◌++◌, map, Option, none, some, not, ◌&&◌, ◌||◌,
  length,
}
use crane_lib.Base.{if◌then◌else◌, ◌==◌, string_eq, eqb, Result, ok, err, panic, ◌>>=◌, ◌>>◌, ltb}
use crane_lib.Base.Int.{ℤ, lt_ℤ}
use crane_lib.Base.Dict
use crane_lib.Base.Dict.{Dict}
use crane_lib.Transform.JsonPatch.{
  PatchApi, Reading, found, failed, is_missing_error, equal_operation,
}

-- The fields of the runner that are read. The logger is left out.
pub record Runner : Type 0 where
  pub plugin_priorities : Dict String ℤ
  pub optional_flags : Dict String String

pub record PluginOperation (Op : Type 0) : Type 0 where
  pub plugin_name : String
  pub operation : Op

pub record PluginResponse (U Op : Type 0) : Type 0 where
  pub is_white_out : Bool
  pub patches : List Op
  pub new_resources : List U

pub record PluginRequest (U : Type 0) : Type 0 where
  pub unstructured : U
  pub extras : Dict String String

-- What `Plugin.Run` returns: a response, or an error, whose response is not read.
pub data Answer (U Op : Type 0) : Type 0 where
  answered : PluginResponse U Op → Answer U Op
  refused : String → Answer U Op

pub record Plugin (U Op : Type 0) : Type 0 where
  pub name : String
  pub run : PluginRequest U → Answer U Op

pub record RunnerResponse (U : Type 0) : Type 0 where
  pub transform_file : String
  pub have_white_out : Bool
  pub ignored_patches : String
  pub new_resources : List U

unfoldable pub plugin_operations_from_patch :
    {Op : Type 0} → String → List Op → List (PluginOperation Op)
plugin_operations_from_patch plugin patches =
    map (λ op. record { plugin_name = plugin; operation = op }) patches

-- Whether the priority of a plugin (the lower number) goes before that of another. A plugin
-- without a priority goes before none.
unfoldable pub goes_before : Option ℤ → Option ℤ → Bool
goes_before none previous = false
goes_before (some current) none = true
goes_before (some current) (some previous) = lt_ℤ current previous

-- The error of a reading unless it is about a missing value.
unfoldable pub check_value : {V : Type 0} → Reading V → Result {0} Unit
unfolding is_missing_error
check_value (found v) = ok tt
check_value (failed missing message) =
    if is_missing_error missing message then ok tt else err message

unfoldable pub reading : {V : Type 0} → Reading V → Result V
reading (found v) = ok v
reading (failed missing message) = err message

module _ {Op V : Type 0} (api : PatchApi Op V) (r : Runner) where
  -- The operations by their path, and those that lost.
  abbrev pub Merge : Type 0
  Merge = Dict String (PluginOperation Op) × List (PluginOperation Op)

  -- `replaceVal`
  unfoldable pub replaces : PluginOperation Op → PluginOperation Op → Bool
  unfolding goes_before
  replaces o found_op =
      goes_before (Dict.lookup o.plugin_name r.plugin_priorities)
        (Dict.lookup found_op.plugin_name r.plugin_priorities)

  -- What a second operation on a path leaves.
  unfoldable pub resolved : String → PluginOperation Op → PluginOperation Op → Merge → Merge
  unfolding replaces
  resolved key o found_op (patch_map, ignored) = (
    if replaces o found_op then Dict.insert key o patch_map else patch_map,
    if equal_operation api found_op.operation o.operation
        then ignored
        else ignored ++ ((if replaces o found_op then found_op else o) ∷ []),
  )

  unfoldable pub collide : String → PluginOperation Op → PluginOperation Op → Merge → Result Merge
  unfolding resolved
  collide key o found_op merge =
      check_value (api.value_interface o.operation)
      >> (check_value (api.value_interface found_op.operation)
          >> ok (resolved key o found_op merge))

  -- The round for an operation whose path was read.
  unfoldable pub place : String → PluginOperation Op → Merge → Result Merge
  unfolding collide
  place key o (patch_map, ignored) = elim (Dict.lookup key patch_map) [
    | none ↦ ok (Dict.insert key o patch_map, ignored)
    | some found_op ↦ collide key o found_op (patch_map, ignored)
  ]

  unfoldable pub merge_one : PluginOperation Op → Merge → Result Merge
  unfolding place
  merge_one o merge = reading (api.path o.operation) >>= λ key. place key o merge

  unfoldable pub merge_all : List (PluginOperation Op) → Merge → Result Merge
  unfolding merge_one
  merge_all [] merge = ok merge
  merge_all (o ∷ rest) merge = merge_one o merge >>= λ merge'. merge_all rest merge'

  -- `iterate` is the order in which the runtime ranges over the map.
  unfoldable pub sanitize_patches :
      (Dict String (PluginOperation Op) → Dict String (PluginOperation Op))
      → List (PluginOperation Op)
      → Result (List Op × List (PluginOperation Op))
  unfolding merge_all
  sanitize_patches iterate ops = merge_all ops ([], []) >>= λ (patch_map, ignored).
      ok (map (λ o. o.operation) (Dict.values (iterate patch_map)), ignored)

-- The local variables of the loop over the plugins.
pub record Gathered (U Op : Type 0) : Type 0 where
  pub have_white_out : Bool
  pub have_patches : Bool
  pub patches : List (PluginOperation Op)
  pub new_resources : List U
  pub errs : List String

module _ {Op V : Type 0} (api : PatchApi Op V) where
  unfoldable pub equal_plugin_operation : PluginOperation Op → PluginOperation Op → Bool
  equal_plugin_operation o1 o2 =
      (o1.plugin_name == o2.plugin_name) && equal_operation api o1.operation o2.operation

  -- The loop over the first list; the second is as long.
  same_operations : List (PluginOperation Op) → List (PluginOperation Op) → Bool
  unfolding equal_plugin_operation
  same_operations [] ops2 = true
  same_operations (o1 ∷ ops1) [] = false
  same_operations (o1 ∷ ops1) (o2 ∷ ops2) =
      if equal_plugin_operation o1 o2 then same_operations ops1 ops2 else false

  unfoldable pub equal_plugin_operation_list :
      List (PluginOperation Op) → List (PluginOperation Op) → Bool
  unfolding same_operations
  equal_plugin_operation_list ops1 ops2 =
      if eqb (length ops1) (length ops2) then same_operations ops1 ops2 else false

-- What `json.Marshal` returns.
pub data Written : Type 0 where
  written : String → Written
  unwritten : String → Written

-- `json.Marshal` of the kept operations and of the ignored ones
pub record Marshal (Op : Type 0) : Type 0 where
  pub marshal_patches : List Op → Written
  pub marshal_ignored : List (PluginOperation Op) → Written

module _ {U Op : Type 0} where
  -- One round of the loop.
  unfoldable pub gather_one : String → Answer U Op → Gathered U Op → Gathered U Op
  unfolding plugin_operations_from_patch
  gather_one plugin (refused e) g = record {
    have_white_out = g.have_white_out;
    have_patches = g.have_patches;
    patches = g.patches;
    new_resources = g.new_resources;
    errs = g.errs ++ (e ∷ []);
  }
  gather_one plugin (answered resp) g = record {
    have_white_out = if resp.is_white_out then true else g.have_white_out;
    have_patches = if ltb 0 (length resp.patches) then true else g.have_patches;
    patches =
        if ltb 0 (length resp.patches)
        then g.patches ++ plugin_operations_from_patch plugin resp.patches
        else g.patches;
    new_resources =
        if ltb 0 (length resp.new_resources)
        then g.new_resources ++ resp.new_resources
        else g.new_resources;
    errs = g.errs;
  }

  unfoldable pub gather : PluginRequest U → List (Plugin U Op) → Gathered U Op → Gathered U Op
  unfolding gather_one
  gather request [] g = g
  gather request (plugin ∷ rest) g =
      gather request rest (gather_one plugin.name (plugin.run request) g)

  unfoldable pub nothing_gathered : Gathered U Op
  nothing_gathered = record {
    have_white_out = false;
    have_patches = false;
    patches = [];
    new_resources = [];
    errs = [];
  }

  unfoldable pub response_with : String → String → Gathered U Op → RunnerResponse U
  response_with transform ignored g = record {
    transform_file = transform;
    have_white_out = g.have_white_out;
    ignored_patches = ignored;
    new_resources = g.new_resources;
  }

  -- The two calls of `json.Marshal`, which gives nil bytes with an error.
  unfoldable pub write_patches :
      Marshal Op
      → Gathered U Op
      → List Op
      → List (PluginOperation Op)
      → RunnerResponse U × Option String
  unfolding response_with
  write_patches marshal g patches ignored = elim (marshal.marshal_patches patches) [
    | unwritten e ↦ (response_with "" "[]" g, some e)
    | written transform ↦ elim (marshal.marshal_ignored ignored) [
      | unwritten e ↦ (response_with transform "" g, some e)
      | written text ↦ (response_with transform text g, none)
    ]
  ]

-- What `Run` returns once the plugins have answered.
module _ {U Op V : Type 0} (api : PatchApi Op V) (marshal : Marshal Op) (r : Runner) where
  respond :
      (Dict String (PluginOperation Op) → Dict String (PluginOperation Op))
      → Gathered U Op
      → Result (RunnerResponse U × Option String)
  unfolding sanitize_patches write_patches
  respond iterate g = elim g.errs [
    | e ∷ rest ↦ ok (response_with "[]" "[]" g, some e)
    | [] ↦
        if g.have_white_out || not g.have_patches
        then ok (response_with "[]" "[]" g, none)
        else elim (sanitize_patches api r iterate g.patches) [
          | ok (patches, ignored) ↦ ok (write_patches marshal g patches ignored)
          | err e ↦ ok (response_with "[]" "[]" g, some e)
          | panic ↦ panic
        ]
  ]

  unfoldable pub run :
      (Dict String (PluginOperation Op) → Dict String (PluginOperation Op))
      → U
      → List (Plugin U Op)
      → Result (RunnerResponse U × Option String)
  unfolding respond gather nothing_gathered
  run iterate object plugins = respond iterate (
      gather (record { unstructured = object; extras = r.optional_flags }) plugins nothing_gathered)
