-- ===== src/Indirect/Names.antt =====
-- The names of the pods.
use Prim.Native.Char.{Char, code}
use Prim.Native.String.{len, ◌++◌ as ◌<>◌}
use text.Mathlib.TextLemmas.{nil-append, cons-append}
use crane_lib.Base.{ℕ, zero, suc, leb, ◌≤◌, ◌<◌, ◌-◌, String, true, false, ◌&&◌}
use crane_lib.Base.{◌≡◌, refl, sym, ap, ◌∙◌, arith, Bool-cases, inl, inr, string_eq, ◌==◌, ==→eq}
use crane_lib.Strings.{is_in, trim_right}
use crane_lib.Strings.Ascii.{IsAscii, len_utf8_ascii, len-nil, len-cons, len-append}
use crane_lib.Indirect.{take_bytes, max_pod_name_len, truncate_pod_name}

-- The last character is not one of the set.
abbrev pub EndsOutside : String → String → Type 0
EndsOutside cutset String.[] = Unit
EndsOutside cutset (String.◌∷◌ c String.[]) = is_in cutset c ≡ false
EndsOutside cutset (String.◌∷◌ c (String.◌∷◌ d s)) = EndsOutside cutset (String.◌∷◌ d s)

-- All characters are of the set.
abbrev pub Within : String → String → Type 0
Within cutset String.[] = Unit
Within cutset (String.◌∷◌ c s) = (is_in cutset c ≡ true) × Within cutset s

cons-EndsOutside :
    (cutset : String) (c : Char) (rest : String)
    → (is_in cutset c && (rest == "")) ≡ false
    → EndsOutside cutset rest
    → EndsOutside cutset (String.◌∷◌ c rest)
cons-EndsOutside cutset c String.[] h outside = ground arith
cons-EndsOutside cutset c (String.◌∷◌ d s) h outside = outside

trim_right-EndsOutside : (cutset s : String) → EndsOutside cutset (trim_right cutset s)
unfolding trim_right
trim_right-EndsOutside cutset String.[] = tt
trim_right-EndsOutside cutset (String.◌∷◌ c s) =
    elim (Bool-cases (is_in cutset c && (trim_right cutset s == ""))) [
      | inl e ↦ rw e tt
      | inr e ↦
          rw e (cons-EndsOutside cutset c (trim_right cutset s) e (trim_right-EndsOutside cutset s))
    ]

-- What trimming cuts off the end is of the set.
trim_right-Within :
    (cutset s : String) → (cut : String) × (s ≡ trim_right cutset s <> cut) × Within cutset cut
unfolding trim_right
trim_right-Within cutset String.[] = ("", sym (nil-append ""), tt)
trim_right-Within cutset (String.◌∷◌ c s) =
    let (cut, is, within) = trim_right-Within cutset s in
    elim (Bool-cases (is_in cutset c && (trim_right cutset s == ""))) [
      | inl e ↦
          let all : s ≡ cut =
            is
            ∙ ap (λ t. t <> cut) (==→eq (trim_right cutset s) "" (ground arith))
            ∙ nil-append cut in
          rw e (
            String.◌∷◌ c cut,
            ap (String.◌∷◌ c) all ∙ sym (nil-append (String.◌∷◌ c cut)),
            (ground arith, within),
          )
      | inr e ↦
          rw e (cut, ap (String.◌∷◌ c) is ∙ sym (cons-append c (trim_right cutset s) cut), within)
    ]

take_bytes-cons :
    (n : ℕ) (c : Char) (s : String)
    → code c < 128
    → take_bytes (suc n) (String.◌∷◌ c s) ≡ String.◌∷◌ c (take_bytes n s)
unfolding take_bytes
take_bytes-cons n c s low = rw (len_utf8_ascii c low) (
    rw
      (
        (let fits : leb 1 (suc n) ≡ true = ground arith in fits),
        (let less : suc n - 1 ≡ n = omega arith in less),
      )
      refl)

-- In ASCII the cut is at the byte.
take_bytes-split :
    (n : ℕ) (s : String)
    → IsAscii s
    → n ≤ len s
    → (len (take_bytes n s) ≡ n) × ((rest : String) × (s ≡ take_bytes n s <> rest))
unfolding take_bytes
take_bytes-split n String.[] ascii h = (omega (arith, len-nil), ("", sym (nil-append "")))
take_bytes-split zero (String.◌∷◌ c s) (low, ascii) h =
    rw (len_utf8_ascii c low) (len-nil, (String.◌∷◌ c s, sym (nil-append (String.◌∷◌ c s))))
take_bytes-split (suc n) (String.◌∷◌ c s) (low, ascii) h =
    let one = len_utf8_ascii c low in
    let (long, (rest, is)) = take_bytes-split n s ascii (omega (arith, one, len-cons c s)) in
    rw (take_bytes-cons n c s low) (
      omega (arith, one, long, len-cons c (take_bytes n s)),
      (rest, ap (String.◌∷◌ c) is ∙ sym (cons-append c (take_bytes n s) rest)),
    )

-- For an ASCII text as a name: a name of at most 63 bytes is left alone. A longer one is its first
-- 63 bytes less the dashes and dots at their end, so that it ends in neither. The result has at
-- most 63 bytes.
pub truncate_pod_name_lem :
    (name : String)
    → IsAscii name
    → (len name ≤ 63 → truncate_pod_name name ≡ name)
      × (63 < len name
          → (first rest cut : String) × (name ≡ first <> rest)
            × (len first ≡ 63)
            × (first ≡ truncate_pod_name name <> cut)
            × Within "-." cut
            × EndsOutside "-." (truncate_pod_name name))
      × (len (truncate_pod_name name) ≤ 63)
unfolding truncate_pod_name
truncate_pod_name_lem name ascii = elim (Bool-cases (leb (len name) max_pod_name_len)) [
  | inl fits ↦ rw fits (λ h. refl, λ long. absurd (ground arith), ground arith)
  | inr long ↦
      let (size, (rest, is)) = take_bytes-split 63 name ascii (ground arith) in
      let (cut, trimmed, within) = trim_right-Within "-." (take_bytes 63 name) in
      rw long (
        λ fits. absurd (ground arith),
        λ h. (
          take_bytes 63 name,
          rest,
          cut,
          is,
          size,
          trimmed,
          within,
          trim_right-EndsOutside "-." (take_bytes 63 name),
        ),
        omega (arith, size, ap len trimmed, len-append (trim_right "-." (take_bytes 63 name)) cut),
      )
]
