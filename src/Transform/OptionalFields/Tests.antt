-- ===== src/Transform/OptionalFields/Tests.antt =====
-- Two options.
use crane_lib.Base.{String, List, [], ◌∷◌, ◌≡◌, arith, All}
use crane_lib.Strings.{join}
use crane_lib.Transform.OptionalFields.{
  parse_optional_field_map_val, print_options, insert_all, IsPlain,
}
use crane_lib.Transform.OptionalFields.{parse_optional_field_map_val-print}

abbrev options : List (String × String)
options = ("b", "") ∷ []

options-IsPlain : All IsPlain (("a", "1") ∷ options)
options-IsPlain = omega arith

parse_optional_field_map_val-print_example :
    parse_optional_field_map_val (join "," (print_options (("a", "1") ∷ options)))
    ≡ insert_all (("a", "1") ∷ options) []
parse_optional_field_map_val-print_example =
    parse_optional_field_map_val-print ("a", "1") options options-IsPlain
