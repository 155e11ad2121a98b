-- ===== src/Strings/Suffix.antt =====
-- strings.TrimSuffix and strings.SplitN on a text that was put together.
use Prim.Native.Char.{Char, code}
use Prim.Native.String.{count, ◌++◌ as ◌<>◌}
use text.Mathlib.TextLemmas.{nil-append, cons-append, length-append, length-cons}
use text.Mathlib.TextLemmas as Text
use crane_lib.Base.{ℕ, String, true, false, [], ◌∷◌, eqb}
use crane_lib.Base.{string_eq, ==_refl, ==_ne, ◌≡◌, ◌≢◌, ap, ◌∙◌, arith}
use crane_lib.Strings.{split_first, split_two, trim_suffix}
use crane_lib.Strings.Laws.{Lacks, append-push}

longer : (c : Char) (s t : String) → String.◌∷◌ c (s <> t) ≢ t
longer c s t e = omega (arith, ap count e, length-cons c (s <> t), length-append s t)

pub trim_suffix-append :
    (s t : String) (c : Char) → trim_suffix (String.◌∷◌ c t) (s <> String.◌∷◌ c t) ≡ s
unfolding trim_suffix
trim_suffix-append String.[] t c = rw (nil-append, ==_refl (String.◌∷◌ c t))
trim_suffix-append (String.◌∷◌ d s) t c =
    rw (cons-append, ==_ne _ _ (longer d s (String.◌∷◌ c t)))
      (ap (String.◌∷◌ d) (trim_suffix-append s t c))

split_first-append :
    (sep : ℕ) (q p : String) (c : Char) (s : String)
    → Lacks sep p
    → eqb (code c) sep ≡ true
    → split_first sep q (p <> String.◌∷◌ c s) ≡ (q <> p) ∷ s ∷ []
unfolding split_first
split_first-append sep q String.[] c s h e = rw (nil-append, Text.append-nil) (rw e)
split_first-append sep q (String.◌∷◌ d p) c s (differ, h) e =
    rw (cons-append, (let no_sep : eqb (code d) sep ≡ false = ground arith in no_sep))
      (split_first-append sep (q <> String.◌∷◌ d "") p c s h e ∙ rw append-push)

split_first_of_Lacks : (sep : ℕ) (q p : String) → Lacks sep p → split_first sep q p ≡ (q <> p) ∷ []
unfolding split_first
split_first_of_Lacks sep q String.[] h = rw Text.append-nil
split_first_of_Lacks sep q (String.◌∷◌ d p) (differ, h) =
    rw (let no_sep : eqb (code d) sep ≡ false = ground arith in no_sep)
      (split_first_of_Lacks sep (q <> String.◌∷◌ d "") p h ∙ rw append-push)

pub split_two-append :
    (sep : ℕ) (p : String) (c : Char) (s : String)
    → Lacks sep p
    → eqb (code c) sep ≡ true
    → split_two sep (p <> String.◌∷◌ c s) ≡ p ∷ s ∷ []
unfolding split_two
split_two-append sep p c s h e = split_first-append sep "" p c s h e ∙ rw nil-append

pub split_two_of_Lacks : (sep : ℕ) (p : String) → Lacks sep p → split_two sep p ≡ p ∷ []
unfolding split_two
split_two_of_Lacks sep p h = split_first_of_Lacks sep "" p h ∙ rw nil-append
