-- ===== src/Strings/Trim.antt =====
-- strings.Trim takes the characters of the set from both ends, and nothing else.
use Prim.Native.Char.{Char}
use crane_lib.Base.{ℕ, String, false, ◌≡◌, refl, arith, ◌==◌, string_eq, ◌&&◌}
use crane_lib.Base.{Bool-cases, inl, inr}
use crane_lib.Strings.{is_in, trim_left, trim_right, trim}
use crane_lib.Strings.Laws.{Lacks}

trim_left-Lacks : (cutset : String) (n : ℕ) (s : String) → Lacks n s → Lacks n (trim_left cutset s)
unfolding trim_left
trim_left-Lacks cutset n String.[] h = tt
trim_left-Lacks cutset n (String.◌∷◌ c s) (k, h) = elim (Bool-cases (is_in cutset c)) [
  | inl cut ↦ rw cut (trim_left-Lacks cutset n s h)
  | inr kept ↦ rw kept (k, h)
]

trim_right-Lacks :
    (cutset : String) (n : ℕ) (s : String) → Lacks n s → Lacks n (trim_right cutset s)
unfolding trim_right
trim_right-Lacks cutset n String.[] h = tt
trim_right-Lacks cutset n (String.◌∷◌ c s) (k, h) =
    elim (Bool-cases (is_in cutset c && (trim_right cutset s == ""))) [
      | inl cut ↦ rw cut tt
      | inr kept ↦ rw kept (k, trim_right-Lacks cutset n s h)
    ]

pub trim-Lacks : (cutset : String) (n : ℕ) (s : String) → Lacks n s → Lacks n (trim cutset s)
unfolding trim
trim-Lacks cutset n s h = trim_right-Lacks cutset n _ (trim_left-Lacks cutset n s h)

-- The first character is not of the set.
abbrev StartsOutside : String → String → Type 0
StartsOutside cutset String.[] = Unit
StartsOutside cutset (String.◌∷◌ c s) = is_in cutset c ≡ false

-- The last character is not of the set.
abbrev EndsOutside : String → String → Type 0
EndsOutside cutset String.[] = Unit
EndsOutside cutset (String.◌∷◌ c String.[]) = is_in cutset c ≡ false
EndsOutside cutset (String.◌∷◌ c (String.◌∷◌ d s)) = EndsOutside cutset (String.◌∷◌ d s)

abbrev pub IsTrimmed : String → String → Type 0
IsTrimmed cutset s = StartsOutside cutset s × EndsOutside cutset s

trim_left-StartsOutside : (cutset s : String) → StartsOutside cutset (trim_left cutset s)
unfolding trim_left
trim_left-StartsOutside cutset String.[] = tt
trim_left-StartsOutside cutset (String.◌∷◌ c s) = elim (Bool-cases (is_in cutset c)) [
  | inl cut ↦ rw cut (trim_left-StartsOutside cutset s)
  | inr kept ↦ rw kept kept
]

trim_right-StartsOutside :
    (cutset s : String) → StartsOutside cutset s → StartsOutside cutset (trim_right cutset s)
unfolding trim_right
trim_right-StartsOutside cutset String.[] h = tt
trim_right-StartsOutside cutset (String.◌∷◌ c s) h = rw h h

EndsOutside-cons :
    (cutset : String) (c : Char) (s : String)
    → EndsOutside cutset s
    → (s ≡ "" → is_in cutset c ≡ false)
    → EndsOutside cutset (String.◌∷◌ c s)
EndsOutside-cons cutset c String.[] h k = k refl
EndsOutside-cons cutset c (String.◌∷◌ d s) h k = h

trim_right-EndsOutside : (cutset s : String) → EndsOutside cutset (trim_right cutset s)
unfolding trim_right
trim_right-EndsOutside cutset String.[] = tt
trim_right-EndsOutside cutset (String.◌∷◌ c s) =
    elim (Bool-cases (is_in cutset c && (trim_right cutset s == ""))) [
      | inl cut ↦ rw cut tt
      | inr kept ↦ rw kept (
          EndsOutside-cons cutset c (trim_right cutset s) (trim_right-EndsOutside cutset s)
            (λ gone. ground arith))
    ]

pub trim-IsTrimmed : (cutset s : String) → IsTrimmed cutset (trim cutset s)
unfolding trim
trim-IsTrimmed cutset s = (
  trim_right-StartsOutside cutset _ (trim_left-StartsOutside cutset s),
  trim_right-EndsOutside cutset _,
)
