-- ===== src/Strconv.antt =====
-- What the program uses of Go's package `strconv`: FormatInt in base 10, Atoi and ParseBool. It is
-- called in state_transfer/quiesce.go and transform/kubernetes/kubernetes.go.
pub mod RoundTrip
pub mod Digits
use Prim.Native.Char.{Char, code}
use crane_lib.Base.{
  ℕ, zero, suc, String, Bool, true, false, Option, none, some, ◌&&◌, List, [], ◌∷◌,
}
use crane_lib.Base.{◌+◌, ◌-◌, ◌*◌, ◌/◌, ◌%◌, ◌^◌, ltb, leb, eqb, if◌then◌else◌}
use crane_lib.Base.{Result, ok, err, ◌==◌, string_eq, contains, ◌≡◌, refl}
use crane_lib.Base.Int.{ℤ, pos, negsuc}

pub digit : ℕ → Char
digit d =
    if eqb d 0
    then "0"
    else if eqb d 1
    then "1"
    else if eqb d 2
    then "2"
    else if eqb d 3
    then "3"
    else if eqb d 4
    then "4"
    else if eqb d 5
    then "5"
    else if eqb d 6
    then "6"
    else if eqb d 7
    then "7"
    else if eqb d 8
    then "8"
    else "9"

-- The digits of `n` in front of `out`, by repeated division; `fuel` is at least `n`.
digits : (fuel n : ℕ) → String → String
digits zero n out = out
digits (suc fuel) n out =
    let rest = digits fuel (n / 10) (String.◌∷◌ (digit (n % 10)) out) in
    if ltb 0 n then rest else out

format_nat : ℕ → String
format_nat n = if eqb n 0 then "0" else digits n n ""

unfoldable pub format_int : ℤ → String
unfolding format_nat digits digit
format_int (pos n) = format_nat n
format_int (negsuc n) = String.◌∷◌ "-" (format_nat (suc n))

scan : String → ℕ → Option ℕ
scan String.[] n = some n
scan (String.◌∷◌ c s) n =
    if leb b'0' (code c) && leb (code c) b'9' then scan s (n * 10 + (code c - b'0')) else none

-- One digit or more.
parse_nat : String → Option ℕ
unfolding scan
parse_nat String.[] = none
parse_nat (String.◌∷◌ c s) = scan (String.◌∷◌ c s) 0

-- A value out of the range of `int` (64 bits) is refused.
plus : Option ℕ → Result ℤ
plus none = err "invalid syntax"
plus (some n) = if ltb n (2 ^ 63) then ok (pos n) else err "value out of range"

minus : Option ℕ → Result ℤ
minus none = err "invalid syntax"
minus (some zero) = ok (pos 0)
minus (some (suc n)) = if ltb n (2 ^ 63) then ok (negsuc n) else err "value out of range"

unfoldable pub atoi : String → Result ℤ
unfolding plus minus parse_nat
atoi String.[] = err "invalid syntax"
atoi (String.◌∷◌ c s) =
    if eqb (code c) b'-'
    then minus (parse_nat s)
    else if eqb (code c) b'+'
    then plus (parse_nat s)
    else plus (parse_nat (String.◌∷◌ c s))

abbrev truths : List String
truths = "1" ∷ "t" ∷ "T" ∷ "TRUE" ∷ "true" ∷ "True" ∷ []

abbrev falsehoods : List String
falsehoods = "0" ∷ "f" ∷ "F" ∷ "FALSE" ∷ "false" ∷ "False" ∷ []

unfoldable pub parse_bool : String → Result Bool
parse_bool s =
    if contains truths s
    then ok true
    else if contains falsehoods s
    then ok false
    else err "invalid syntax"
