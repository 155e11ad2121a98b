-- ===== src/Transform/Runner/Runs.antt =====
-- What `Run` answers, by what the plugins answer.
use crane_lib.Base.{String, true, false, List, [], ◌∷◌, none, some, not, ◌||◌}
use crane_lib.Base.{ok}
use crane_lib.Base.{◌≡◌, ◌≢◌, refl, ◌∙◌, arith}
use crane_lib.Base.Dict.{Dict}
use crane_lib.Transform.JsonPatch.{PatchApi}
use crane_lib.Transform.Runner.{
  Runner, Plugin, PluginRequest, PluginOperation, Gathered, nothing_gathered, Marshal, written,
  RunnerResponse, response_with, write_patches, sanitize_patches, respond, run,
}
use crane_lib.Transform.Runner.Gather.{
  all_errors, any_white_out, all_operations, all_resources, add, some_of_ne, gather_lem,
}

module _ {U Op V : Type 0} (api : PatchApi Op V) (marshal : Marshal Op) (r : Runner)
    (iterate : Dict String (PluginOperation Op) → Dict String (PluginOperation Op)) where
  respond-error :
      (g : Gathered U Op) (e : String) (rest : List String)
      → g.errs ≡ e ∷ rest
      → respond api marshal r iterate g ≡ ok (response_with "[]" "[]" g, some e)
  unfolding respond
  respond-error g e rest h = rw (h, respond) refl

  respond-nothing :
      (g : Gathered U Op)
      → g.errs ≡ []
      → (g.have_white_out || not g.have_patches) ≡ true
      → respond api marshal r iterate g ≡ ok (response_with "[]" "[]" g, none)
  unfolding respond
  respond-nothing g h w = rw (h, respond) (rw w refl)

  respond-merged :
      (g : Gathered U Op) (patch : List Op) (ignored : List (PluginOperation Op))
      → g.errs ≡ []
      → (g.have_white_out || not g.have_patches) ≡ false
      → sanitize_patches api r iterate g.patches ≡ ok (patch, ignored)
      → respond api marshal r iterate g ≡ ok (write_patches marshal g patch ignored)
  unfolding respond
  respond-merged g patch ignored h w merged = rw (h, respond) (rw w (rw merged refl))

module _ {U Op V : Type 0} (api : PatchApi Op V) (marshal : Marshal Op) (r : Runner)
    (iterate : Dict String (PluginOperation Op) → Dict String (PluginOperation Op)) (object : U)
    (plugins : List (Plugin U Op)) where
  -- What every plugin is asked.
  abbrev pub request_of : PluginRequest U
  request_of = record { unstructured = object; extras = r.optional_flags }

  -- The response that changes nothing.
  abbrev pub unchanged : RunnerResponse U
  unchanged = record {
    transform_file = "[]";
    have_white_out = any_white_out request_of plugins;
    ignored_patches = "[]";
    new_resources = all_resources request_of plugins;
  }

  -- If a plugin fails, then the error of the first that fails is returned, with no operations and
  -- with the new resources of all that do not fail, those behind it included.
  pub run-first_error :
      (e : String) (rest : List String)
      → all_errors request_of plugins ≡ e ∷ rest
      → run api marshal r iterate object plugins ≡ ok (unchanged, some e)
  unfolding run nothing_gathered add response_with
  run-first_error e rest h =
      rw (gather_lem request_of plugins nothing_gathered)
        (respond-error api marshal r iterate _ e rest h)

  -- If no plugin fails and one asks to leave the resource out, then the response says so and has
  -- no operations, whatever operations the plugins returned.
  pub run-white_out :
      all_errors request_of plugins ≡ []
      → any_white_out request_of plugins ≡ true
      → run api marshal r iterate object plugins ≡ ok (unchanged, none)
  unfolding run nothing_gathered add response_with
  run-white_out h w =
      rw (gather_lem request_of plugins nothing_gathered)
        (respond-nothing api marshal r iterate _ h (ground (arith, w)))

  -- If no plugin fails and none asks to leave the resource out, then the response holds what
  -- merging the operations of all plugins gives, provided that merging and marshalling succeed.
  pub run-merged :
      (patch : List Op) (ignored : List (PluginOperation Op)) (transform lost : String)
      → all_errors request_of plugins ≡ []
      → any_white_out request_of plugins ≡ false
      → all_operations request_of plugins ≢ []
      → sanitize_patches api r iterate (all_operations request_of plugins) ≡ ok (patch, ignored)
      → marshal.marshal_patches patch ≡ written transform
      → marshal.marshal_ignored ignored ≡ written lost
      → run api marshal r iterate object plugins
        ≡ ok (
          record {
            transform_file = transform;
            have_white_out = false;
            ignored_patches = lost;
            new_resources = all_resources request_of plugins;
          },
          none,
        )
  unfolding run nothing_gathered add response_with write_patches
  run-merged patch ignored transform lost h w has merged t l =
      rw (gather_lem request_of plugins nothing_gathered) (
        respond-merged api marshal r iterate _ patch ignored h
          (rw (w, some_of_ne request_of (all_operations request_of plugins) has) refl) merged
        ∙ rw (t, write_patches) (rw l (rw w refl)))
