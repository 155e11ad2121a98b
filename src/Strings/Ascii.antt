-- ===== src/Strings/Ascii.antt =====
-- ASCII texts, where a character is a byte, and the length of a text in bytes.
use Prim.Native.Char.{Char, code, len_utf8, len_utf8_def}
use Prim.Native.String
use Prim.Native.String.{len, ◌++◌ as ◌<>◌}
use text.Mathlib.TextLemmas.{nil-append, cons-append}
use crane_lib.Base.{◌+◌, ◌<◌, String, ◌≡◌, refl, ◌∙◌, arith}

abbrev pub IsAscii : String → Type 0
IsAscii String.[] = Unit
IsAscii (String.◌∷◌ c s) = (code c < 128) × IsAscii s

pub len_utf8_ascii : (c : Char) → code c < 128 → len_utf8 c ≡ 1
len_utf8_ascii c h = (λ i. len_utf8_def c i) ∙ ground arith

pub len-nil : len "" ≡ 0
len-nil = refl

pub len-cons : (c : Char) (s : String) → len (String.◌∷◌ c s) ≡ len_utf8 c + len s
len-cons c s = λ i. String.len.cons c s i

pub len-append : (s t : String) → len (s <> t) ≡ len s + len t
len-append String.[] t = rw nil-append (omega (arith, len-nil))
len-append (String.◌∷◌ c s) t =
    rw cons-append (omega (arith, len-append s t, len-cons c (s <> t), len-cons c s))
