-- ===== src/Transform/OptionalFields.antt =====
-- plugin.go: reading the values of optional fields.
mod Tests
use Prim.Native.Char.{Char, code}
use Prim.Native.String.{◌++◌ as ◌<>◌}
use text.Mathlib.TextLemmas.{nil-append, cons-append}
use crane_lib.Base.{String, Bool, true, false, List, [], ◌∷◌, string_eq, ◌==◌, if◌then◌else◌, All}
use crane_lib.Base.{◌≡◌, refl, sym, ap, ◌∙◌, arith}
use crane_lib.Base.Dict
use crane_lib.Base.Dict.{Dict}
use crane_lib.Strings.{split, join}
use crane_lib.Strings.Laws.{Lacks, Lacks-append, split-append, split_of_Lacks}

unfoldable pub parse_optional_field_slice_val : String → List String
parse_optional_field_slice_val slice_val = split b',' slice_val

-- A pair without "=" gets the empty text; what follows a second "=" is dropped.
add_pair : List String → Dict String String → Dict String String
add_pair [] m = m
add_pair (k ∷ []) m = Dict.insert k "" m
add_pair (k ∷ v ∷ rest) m = Dict.insert k v m

add_pairs : List String → Dict String String → Dict String String
unfolding add_pair
add_pairs [] m = m
add_pairs (pair ∷ rest) m = add_pairs rest (add_pair (split b'=' pair) m)

unfoldable pub parse_optional_field_map_val : String → Dict String String
unfolding add_pairs
parse_optional_field_map_val slice_val = add_pairs (split b',' slice_val) []

-- An option as it is written on the command line.
abbrev pub print_option : String × String → String
print_option (k, v) = k <> String.◌∷◌ "=" v

abbrev pub print_options : List (String × String) → List String
print_options [] = []
print_options (o ∷ rest) = print_option o ∷ print_options rest

abbrev pub insert_all : List (String × String) → Dict String String → Dict String String
insert_all [] m = m
insert_all ((k, v) ∷ rest) m = insert_all rest (Dict.insert k v m)

-- Neither part holds a separator.
abbrev pub IsPlain : String × String → Type 0
IsPlain (k, v) = Lacks b'=' k × Lacks b'=' v × Lacks b',' k × Lacks b',' v

print_option-Lacks : (o : String × String) → IsPlain o → Lacks b',' (print_option o)
print_option-Lacks (k, v) (_, _, hk, hv) =
    Lacks-append b',' k (String.◌∷◌ "=" v) hk (omega arith, hv)

split-print_option : (k v : String) → IsPlain (k, v) → split b'=' (print_option (k, v)) ≡ k ∷ v ∷ []
split-print_option k v (hk, hv, _, _) =
    split-append b'=' k "=" v hk refl ∙ ap (λ (l : List String). k ∷ l) (split_of_Lacks b'=' v hv)

comma-append : (t : String) → "," <> t ≡ String.◌∷◌ "," t
comma-append t = cons-append "," "" t ∙ ap (String.◌∷◌ ",") (nil-append t)

split-join :
    (o : String × String) (rest : List (String × String))
    → All IsPlain (o ∷ rest)
    → split b',' (join "," (print_options (o ∷ rest))) ≡ print_options (o ∷ rest)
unfolding join
split-join o [] (p, h) = split_of_Lacks b',' (print_option o) (print_option-Lacks o p)
split-join o (o' ∷ rest) (p, h) =
    ap (λ (t : String). split b',' (print_option o <> t))
      (comma-append (join "," (print_options (o' ∷ rest))))
    ∙ split-append b',' (print_option o) "," (join "," (print_options (o' ∷ rest)))
        (print_option-Lacks o p) refl
    ∙ ap (λ (l : List String). print_option o ∷ l) (split-join o' rest h)

add_pairs-print_options :
    (options : List (String × String)) (m : Dict String String)
    → All IsPlain options
    → add_pairs (print_options options) m ≡ insert_all options m
unfolding add_pairs add_pair
add_pairs-print_options [] m h = refl
add_pairs-print_options ((k, v) ∷ rest) m (p, h) =
    ap (λ l. add_pairs (print_options rest) (add_pair l m)) (split-print_option k v p)
    ∙ add_pairs-print_options rest (Dict.insert k v m) h

-- Printed options read back as the map that inserting them in order gives, if there is at least
-- one and none holds a separator.
pub parse_optional_field_map_val-print :
    (o : String × String) (rest : List (String × String))
    → All IsPlain (o ∷ rest)
    → parse_optional_field_map_val (join "," (print_options (o ∷ rest))) ≡ insert_all (o ∷ rest) []
unfolding parse_optional_field_map_val
parse_optional_field_map_val-print o rest h =
    ap (λ l. add_pairs l []) (split-join o rest h) ∙ add_pairs-print_options (o ∷ rest) [] h
