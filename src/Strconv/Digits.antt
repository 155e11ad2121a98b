-- ===== src/Strconv/Digits.antt =====
-- FormatInt prints a number that is not negative as digits.
use Prim.Native.Char.{code}
use crane_lib.Base.{ℕ, zero, suc, String, Bool-cases, inl, inr, arith, ltb, eqb, ◌≤◌, ◌%◌, ◌/◌}
use crane_lib.Base.Int.{pos}
use crane_lib.Strconv.{digit, digits, format_nat, format_int}
use crane_lib.Strconv.RoundTrip.{digit-IsDigit}

abbrev pub AreDigits : String → Type 0
AreDigits String.[] = Unit
AreDigits (String.◌∷◌ c s) = (b'0' ≤ code c) × (code c ≤ b'9') × AreDigits s

digits-AreDigits : (f n : ℕ) (out : String) → AreDigits out → AreDigits (digits f n out)
unfolding digits
digits-AreDigits zero n out h = h
digits-AreDigits (suc f) n out h = elim (Bool-cases (ltb 0 n)) [
  | inl more ↦
      let (low, high) = digit-IsDigit (n % 10) (omega arith) in
      rw more (digits-AreDigits f (n / 10) (String.◌∷◌ (digit (n % 10)) out) (low, high, h))
  | inr last ↦ rw last h
]

pub format_int-AreDigits : (n : ℕ) → AreDigits (format_int (pos n))
unfolding format_int format_nat
format_int-AreDigits n = elim (Bool-cases (eqb n 0)) [
  | inl e ↦ rw e (omega arith, omega arith, tt)
  | inr e ↦ rw e (digits-AreDigits n n "" tt)
]
