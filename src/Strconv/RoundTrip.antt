-- ===== src/Strconv/RoundTrip.antt =====
-- Atoi reads back what FormatInt prints.
use Prim.Native.Char.{code}
use crane_lib.Base.{
  ℕ, zero, suc, String, false, Bool-cases, inl, inr, true, some, arith, ltb, eqb, ok, ◌≡◌, refl,
  ◌∙◌,
}
use crane_lib.Base.{◌+◌, ◌*◌, ◌/◌, ◌%◌, ◌^◌, ◌≤◌, ◌<◌}
use crane_lib.Base.Int.{ℤ, pos, negsuc, IsInt32}
use crane_lib.Strconv.{digit, digits, format_nat, format_int, scan, parse_nat, plus, minus, atoi}

code-digit : (d : ℕ) → d < 10 → code (digit d) ≡ b'0' + d
unfolding digit
code-digit zero h = refl
code-digit (suc zero) h = refl
code-digit (suc (suc zero)) h = refl
code-digit (suc (suc (suc zero))) h = refl
code-digit (suc (suc (suc (suc zero)))) h = refl
code-digit (suc (suc (suc (suc (suc zero))))) h = refl
code-digit (suc (suc (suc (suc (suc (suc zero)))))) h = refl
code-digit (suc (suc (suc (suc (suc (suc (suc zero))))))) h = refl
code-digit (suc (suc (suc (suc (suc (suc (suc (suc zero)))))))) h = refl
code-digit (suc (suc (suc (suc (suc (suc (suc (suc (suc zero))))))))) h = refl
code-digit (suc (suc (suc (suc (suc (suc (suc (suc (suc (suc n)))))))))) h = absurd (omega arith)

scan-digit : (d m : ℕ) (s : String) → d < 10 → scan (String.◌∷◌ (digit d) s) m ≡ scan s (m * 10 + d)
unfolding scan
scan-digit d m s h = rw (code-digit d h) (ground arith)

scan-digits : (f n : ℕ) (out : String) → n ≤ f → scan (digits f n out) 0 ≡ scan out n
unfolding digits
scan-digits zero n out h = rw (let e : n ≡ 0 = omega arith in e)
scan-digits (suc f) n out h = ground (
  arith,
  scan-digits f (n / 10) (String.◌∷◌ (digit (n % 10)) out),
  scan-digit (n % 10) (n / 10) out,
)

suc-ne-zero : (n : ℕ) → eqb (suc n) 0 ≡ false
suc-ne-zero n = ground arith

format_nat-suc : (n : ℕ) → format_nat (suc n) ≡ digits (suc n) (suc n) ""
unfolding format_nat
format_nat-suc n = rw (suc-ne-zero n)

scan-format_nat : (n : ℕ) → scan (format_nat n) 0 ≡ some n
unfolding scan
scan-format_nat zero = unfold format_nat scan in refl
scan-format_nat (suc n) = rw (format_nat-suc n) (scan-digits (suc n) (suc n) "" (omega arith))

abbrev StartsWithDigit : String → Type 0
StartsWithDigit String.[] = ⊥
StartsWithDigit (String.◌∷◌ c s) = (b'0' ≤ code c) × (code c ≤ b'9')

pub digit-IsDigit : (d : ℕ) → d < 10 → (b'0' ≤ code (digit d)) × (code (digit d) ≤ b'9')
digit-IsDigit d h = omega (arith, code-digit d h)

digits-StartsWithDigit :
    (f n : ℕ) (out : String) → StartsWithDigit out → StartsWithDigit (digits f n out)
unfolding digits
digits-StartsWithDigit zero n out h = h
digits-StartsWithDigit (suc f) n out h = elim (Bool-cases (ltb 0 n)) [
  | inl more ↦ rw more (
      digits-StartsWithDigit f (n / 10) (String.◌∷◌ (digit (n % 10)) out)
        (digit-IsDigit (n % 10) (omega arith)))
  | inr done ↦ rw done h
]

digits-suc :
    (f n : ℕ) (out : String)
    → digits (suc f) (suc n) out ≡ digits f (suc n / 10) (String.◌∷◌ (digit (suc n % 10)) out)
unfolding digits
digits-suc f n out = rw (let e : ltb 0 (suc n) ≡ true = ground arith in e)

format_nat-StartsWithDigit : (n : ℕ) → StartsWithDigit (format_nat n)
format_nat-StartsWithDigit zero = unfold format_nat in omega arith
format_nat-StartsWithDigit (suc n) =
    rw (format_nat-suc n, digits-suc n n "")
      (digits-StartsWithDigit n (suc n / 10) (String.◌∷◌ (digit (suc n % 10)) "")
        (digit-IsDigit (suc n % 10) (omega arith)))

parse_nat-scan : (s : String) → StartsWithDigit s → parse_nat s ≡ scan s 0
unfolding parse_nat
parse_nat-scan (String.◌∷◌ c s) h = refl
parse_nat-scan String.[] h = absurd h

parse_nat-format_nat : (n : ℕ) → parse_nat (format_nat n) ≡ some n
parse_nat-format_nat n = parse_nat-scan _ (format_nat-StartsWithDigit n) ∙ scan-format_nat n

atoi-plus : (s : String) → StartsWithDigit s → atoi s ≡ plus (parse_nat s)
unfolding atoi
atoi-plus (String.◌∷◌ c s) h = ground arith
atoi-plus String.[] h = absurd h

plus_lem : (n : ℕ) → n < 2 ^ 31 → plus (some n) ≡ ok (pos n)
unfolding plus
plus_lem n h = ground arith

minus_lem : (n : ℕ) → n < 2 ^ 31 → minus (some (suc n)) ≡ ok (negsuc n)
unfolding minus
minus_lem n h = ground arith

atoi-minus : (s : String) → atoi (String.◌∷◌ "-" s) ≡ minus (parse_nat s)
unfolding atoi
atoi-minus s = refl

format_int-pos : (n : ℕ) → format_int (pos n) ≡ format_nat n
unfolding format_int
format_int-pos n = refl

format_int-negsuc : (n : ℕ) → format_int (negsuc n) ≡ String.◌∷◌ "-" (format_nat (suc n))
unfolding format_int
format_int-negsuc n = refl

-- Atoi reads back every integer of 32 bits that FormatInt prints, negative ones included.
pub atoi-format_int : (z : ℤ) → IsInt32 z → atoi (format_int z) ≡ ok z
atoi-format_int (pos n) h =
    rw (format_int-pos n, atoi-plus _ (format_nat-StartsWithDigit n), parse_nat-format_nat n)
      (plus_lem n h)
atoi-format_int (negsuc n) h =
    rw (format_int-negsuc n, atoi-minus (format_nat (suc n)), parse_nat-format_nat (suc n))
      (minus_lem n h)
