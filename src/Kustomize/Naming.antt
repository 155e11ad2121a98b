-- ===== src/Kustomize/Naming.antt =====
-- naming.go: the file of a resource type.
pub mod RoundTrip
pub mod Safe
use Prim.Native.Char.{Char, code}
use Prim.Native.String.{◌++◌ as ◌<>◌}
use crane_lib.Base.{
  ℕ, String, Bool, true, false, List, [], ◌∷◌, eqb, if◌then◌else◌, ◌==◌, string_eq,
}
use crane_lib.Strings.{replace_all, split_two, trim_suffix, trim}

abbrev pub upper_letters : String
upper_letters = "ABCDEFGHIJKLMNOPQRSTUVWXYZ"

abbrev pub lower_letters : String
lower_letters = "abcdefghijklmnopqrstuvwxyz"

-- The letter below `c`, or `c` itself if it is not in the first row.
pick : String → String → Char → Char
pick (String.◌∷◌ u us) (String.◌∷◌ l ls) c = if eqb (code c) (code u) then l else pick us ls c
pick us ls c = c

map_lower : String → String
map_lower String.[] = ""
map_lower (String.◌∷◌ c s) = String.◌∷◌ (pick upper_letters lower_letters c) (map_lower s)

-- strings.ToLower, for the ASCII letters: the kinds of Kubernetes have no others.
unfoldable pub to_lower : String → String
unfolding pick map_lower
to_lower s = map_lower s

unfoldable pub get_resource_type_filename : (kind group : String) → String
get_resource_type_filename kind group =
    if group == "" then to_lower kind <> ".yaml" else to_lower kind <> ("." <> (group <> ".yaml"))

-- Each of the characters becomes a dash, in turn.
unfoldable pub dash_all : List ℕ → String → String
dash_all [] s = s
dash_all (c ∷ cs) s = dash_all cs (replace_all c "-" s)

abbrev pub unsafe_characters : List ℕ
unsafe_characters = b'/' ∷ b'\\' ∷ b':' ∷ b'*' ∷ b'?' ∷ 0x22 ∷ b'<' ∷ b'>' ∷ b'|' ∷ []

unfoldable pub sanitize_filename : String → String
unfolding dash_all
sanitize_filename filename = trim ". " (dash_all unsafe_characters filename)

-- The two parts around the first dot.
kind_and_group : List String → String × String
kind_and_group (kind ∷ group ∷ rest) = (kind, group)
kind_and_group (kind ∷ []) = (kind, "")
kind_and_group [] = ("", "")

-- TrimSuffix changes nothing where HasSuffix does not hold.
unfoldable pub parse_resource_type_filename : String → String × String
unfolding kind_and_group
parse_resource_type_filename filename =
    kind_and_group (split_two b'.' (trim_suffix ".yaml" filename))
