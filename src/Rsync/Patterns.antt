-- ===== src/Rsync/Patterns.antt =====
-- options.go: the two regular expressions that the values of options are matched with. In both
-- every character decides alone how the match goes on, so one pass over the text is enough.
use Prim.Native.Char.{Char, code}
use crane_lib.Base.{String, Bool, true, false, ◌&&◌, ◌||◌, eqb, leb, if◌then◌else◌, string_eq, ◌==◌}

-- `[A-Z]`, `\d` and `[a-z0-9]`
abbrev is_upper : Char → Bool
is_upper c = leb b'A' (code c) && leb (code c) b'Z'

abbrev is_digit : Char → Bool
is_digit c = leb b'0' (code c) && leb (code c) b'9'

abbrev is_word : Char → Bool
is_word c = (leb b'a' (code c) && leb (code c) b'z') || is_digit c

-- `^[A-Z]+\d?$`; the flag says that a letter was read.
info_from : Bool → String → Bool
info_from seen String.[] = seen
info_from seen (String.◌∷◌ c s) =
    let rest = info_from true s in if is_upper c then rest else seen && is_digit c && (s == "")

unfoldable pub is_info_option : String → Bool
unfolding info_from
is_info_option opt = info_from false opt

-- `.*$`, where the dot matches no newline
unfoldable pub one_line : String → Bool
one_line String.[] = true
one_line (String.◌∷◌ c s) = if eqb (code c) b'\n' then false else one_line s

-- `([a-z0-9]+\-){0}?[a-z0-9]+(=.*)?$`; the flag says that the last character was of a word.
words_from : Bool → String → Bool
unfolding one_line
words_from seen String.[] = seen
words_from seen (String.◌∷◌ c s) =
    let word = words_from true s in
    let dash = words_from false s in
    if is_word c
    then word
    else if eqb (code c) b'-'
    then seen && dash
    else seen && eqb (code c) b'=' && one_line s

-- Behind the first dash: a second one, or the words.
after_dash : String → Bool
unfolding words_from
after_dash String.[] = false
after_dash (String.◌∷◌ c s) =
    if eqb (code c) b'-' then words_from false s else words_from false (String.◌∷◌ c s)

-- `^\-{1,2}([a-z0-9]+\-){0}?[a-z0-9]+(=.*)?$`
unfoldable pub is_extra_option : String → Bool
unfolding after_dash
is_extra_option String.[] = false
is_extra_option (String.◌∷◌ c s) = if eqb (code c) b'-' then after_dash s else false
