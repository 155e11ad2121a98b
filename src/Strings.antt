-- ===== src/Strings.antt =====
-- What the program uses of Go's package `strings`, and of its order on texts. Separators and
-- replaced texts are single ASCII characters in every call, so walking by code points gives what
-- Go's walk over UTF-8 bytes gives.
pub mod Ascii
pub mod Laws
pub mod Order
pub mod Suffix
pub mod Trim
use Prim.Native.Char.{Char, code}
use Prim.Native.String.{◌++◌ as ◌<>◌}
use crane_lib.Base.{ℕ, String, Bool, true, false, List, [], ◌∷◌, ◌&&◌, ltb, leb, eqb, if◌then◌else◌}
use crane_lib.Base.{◌==◌, string_eq, contains}

-- strings.ReplaceAll of a one-character text
unfoldable pub replace_all : ℕ → String → String → String
replace_all old new String.[] = ""
replace_all old new (String.◌∷◌ c s) =
    let rest = replace_all old new s in if eqb (code c) old then new <> rest else String.◌∷◌ c rest

-- strings.Split, with the part that is being read
unfoldable pub split_from : ℕ → String → String → List String
split_from sep part String.[] = part ∷ []
split_from sep part (String.◌∷◌ c s) =
    let closed = part ∷ split_from sep "" s in
    let longer = split_from sep (part <> String.◌∷◌ c "") s in
    if eqb (code c) sep then closed else longer

unfoldable pub split : ℕ → String → List String
unfolding split_from
split sep s = split_from sep "" s

-- strings.SplitN with n = 2: the text behind the first separator stays whole
split_first : ℕ → String → String → List String
split_first sep part String.[] = part ∷ []
split_first sep part (String.◌∷◌ c s) =
    let longer = split_first sep (part <> String.◌∷◌ c "") s in
    if eqb (code c) sep then part ∷ s ∷ [] else longer

unfoldable pub split_two : ℕ → String → List String
unfolding split_first
split_two sep s = split_first sep "" s

-- strings.Join
unfoldable pub join : String → List String → String
join sep [] = ""
join sep (s ∷ []) = s
join sep (s ∷ t ∷ rest) = s <> (sep <> join sep (t ∷ rest))

-- strings.TrimSuffix
unfoldable pub trim_suffix : String → String → String
trim_suffix suffix String.[] = ""
trim_suffix suffix (String.◌∷◌ c s) =
    let rest = String.◌∷◌ c (trim_suffix suffix s) in if String.◌∷◌ c s == suffix then "" else rest

-- strings.Trim with a set of characters: the leading and the trailing ones go.
unfoldable pub is_in : String → Char → Bool
is_in String.[] c = false
is_in (String.◌∷◌ d cutset) c = if eqb (code c) (code d) then true else is_in cutset c

trim_left : String → String → String
trim_left cutset String.[] = ""
trim_left cutset (String.◌∷◌ c s) =
    let rest = trim_left cutset s in if is_in cutset c then rest else String.◌∷◌ c s

unfoldable pub trim_right : String → String → String
trim_right cutset String.[] = ""
trim_right cutset (String.◌∷◌ c s) =
    let rest = trim_right cutset s in
    if is_in cutset c && (rest == "") then "" else String.◌∷◌ c rest

unfoldable pub trim : String → String → String
unfolding trim_left trim_right is_in
trim cutset s = trim_right cutset (trim_left cutset s)

-- strings.HasPrefix
unfoldable pub has_prefix : String → String → Bool
has_prefix String.[] s = true
has_prefix (String.◌∷◌ p prefix) String.[] = false
has_prefix (String.◌∷◌ p prefix) (String.◌∷◌ c s) =
    if eqb (code p) (code c) then has_prefix prefix s else false

-- strings.Contains
unfoldable pub contains_text : String → String → Bool
unfolding has_prefix
contains_text part String.[] = has_prefix part ""
contains_text part (String.◌∷◌ c s) =
    if has_prefix part (String.◌∷◌ c s) then true else contains_text part s

-- Go's `<=` on texts: the order of UTF-8 bytes is that of code points.
unfoldable pub text_leb : String → String → Bool
text_leb String.[] t = true
text_leb (String.◌∷◌ c s) String.[] = false
text_leb (String.◌∷◌ c s) (String.◌∷◌ d t) =
    let rest = text_leb s t in
    if ltb (code c) (code d) then true else if eqb (code c) (code d) then rest else false
