-- ===== src/Rsync/Command.antt =====
-- options.go: `AsRsyncCommandOptions` and its two filters.
pub mod Laws
pub mod Errors
use Prim.Native.String.{◌++◌ as ◌<>◌}
use crane_lib.Base.{
  String, Bool, true, false, not, Option, none, some, List, [], ◌∷◌, ◌++◌, keep, map,
}
use crane_lib.Base.{if◌then◌else◌, string_eq, ◌==◌, ltb, length}
use crane_lib.Base.Int.{ℤ, is_positive}
use crane_lib.Strconv.{format_int}
use crane_lib.Strings.{join, trim}
use crane_lib.Rsync.{CommandOptions, Aggregate}
use crane_lib.Rsync.Patterns.{is_info_option, is_extra_option}

-- A flag and its option.
abbrev pub flag : Bool → String → List String
flag b opt = if b then opt ∷ [] else []

-- The two loops, by the test, what is kept of a value, and the error for the others.
unfoldable pub filter_options :
    (String → Bool)
    → (String → String)
    → (String → String)
    → List String
    → List String × List (Option String)
filter_options test keep_as message [] = ([], [])
filter_options test keep_as message (opt ∷ rest) =
    let (validated, errs) = filter_options test keep_as message rest in
    if test opt then (keep_as opt ∷ validated, errs) else (validated, some (message opt) ∷ errs)

-- strings.TrimSpace, for the spaces of ASCII
abbrev pub trim_space : String → String
trim_space s = trim " \t\n\r" s

-- The flags in front of the limit.
unfoldable pub flag_options : CommandOptions → List String
flag_options c =
    flag c.recursive "--recursive"
    ++ flag c.sym_links "--links"
    ++ flag c.permissions "--perms"
    ++ flag c.device_files "--devices"
    ++ flag c.special_files "--specials"
    ++ flag c.mod_times "--times"
    ++ flag c.owners "--owner"
    ++ flag c.groups "--group"
    ++ flag c.hard_links "--hard-links"
    ++ flag c.delete "--delete"
    ++ flag c.partial "--partial"

-- Each part gives options and errors.
abbrev pub Part : Type 0
Part = List String × List (Option String)

unfoldable pub bw_limit_part : Option ℤ → Part
bw_limit_part none = ([], [])
bw_limit_part (some n) =
    if is_positive n
    then (("--bwlimit=" <> format_int n) ∷ [], [])
    else ([], some "rsync bwlimit value must be a positive integer" ∷ [])

abbrev pub info_message : String → String
info_message opt = "invalid value " <> (opt <> " for Rsync option --info")

abbrev pub extra_message : String → String
extra_message opt = "invalid Rsync option " <> opt

module _ (aggregate : Aggregate) where
  unfoldable pub filter_rsync_info_options : List String → List String × Option String
  unfolding filter_options is_info_option
  filter_rsync_info_options options =
      let (validated, errs) = filter_options is_info_option trim_space info_message options in
      (validated, aggregate errs)

  unfoldable pub filter_rsync_extra_options : List String → List String × Option String
  unfolding filter_options is_extra_option
  filter_rsync_extra_options options =
      let (validated, errs) = filter_options is_extra_option (λ opt. opt) extra_message options in
      (validated, aggregate errs)

  -- With a value that is refused, the option is still given, with the values that are left.
  unfoldable pub info_part : List String → Part
  unfolding filter_rsync_info_options
  info_part [] = ([], [])
  info_part (i ∷ info) =
      let (validated, err) = filter_rsync_info_options (i ∷ info) in
      (("--info=" <> join "," validated) ∷ [], err ∷ [])

  unfoldable pub extras_part : List String → Part
  unfolding filter_rsync_extra_options
  extras_part [] = ([], [])
  extras_part (e ∷ extras) =
      let (validated, err) = filter_rsync_extra_options (e ∷ extras) in (validated, err ∷ [])

  unfoldable pub as_rsync_command_options : CommandOptions → List String × Option String
  unfolding flag_options bw_limit_part info_part extras_part
  as_rsync_command_options c = (
    flag_options c
        ++ (bw_limit_part c.bw_limit).0
        ++ flag c.human_readable "--human-readable"
        ++ flag (not (c.log_file == "")) ("--log-file=" <> c.log_file)
        ++ (info_part c.info).0
        ++ (extras_part c.extras).0
        ++ map (λ file. "--exclude=" <> file) c.exclude_files,
    aggregate ((bw_limit_part c.bw_limit).1 ++ (info_part c.info).1 ++ (extras_part c.extras).1),
  )
