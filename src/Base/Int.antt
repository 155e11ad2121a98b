-- ===== src/Base/Int.antt =====
-- Go's signed integers. The values stay in the range that their type gives; `wrap_int32` is the
-- conversion `int32(x)`.
use Prim.Native.Nat.{ℕ, ◌-◌, ◌%◌, ◌^◌, ◌<◌}
use mathlib.Core.Path.{◌≡◌, refl}
use mathlib.Core.Bool.{Bool, true, false}
use native.Mathlib.Omega.{arith}
use crane_lib.Base.Tests.{ltb, eqb, if◌then◌else◌}

-- `negsuc n` is -(n + 1).
pub data ℤ : Type 0 where
  pos : ℕ → ℤ
  negsuc : ℕ → ℤ

abbrev pub is_zero : ℤ → Bool
is_zero (pos n) = eqb n 0
is_zero (negsuc n) = false

abbrev pub is_positive : ℤ → Bool
is_positive (pos n) = ltb 0 n
is_positive (negsuc n) = false

abbrev pub eq_ℤ : ℤ → ℤ → Bool
eq_ℤ (pos a) (pos b) = eqb a b
eq_ℤ (negsuc a) (negsuc b) = eqb a b
eq_ℤ (pos a) (negsuc b) = false
eq_ℤ (negsuc a) (pos b) = false

pub eq_ℤ→eq : (a b : ℤ) → eq_ℤ a b ≡ true → a ≡ b
eq_ℤ→eq (pos a) (pos b) h = ground arith
eq_ℤ→eq (negsuc a) (negsuc b) h = ground arith
eq_ℤ→eq (pos a) (negsuc b) h = cc
eq_ℤ→eq (negsuc a) (pos b) h = cc

-- The order of the integers.
abbrev pub lt_ℤ : ℤ → ℤ → Bool
lt_ℤ (pos a) (pos b) = ltb a b
lt_ℤ (pos a) (negsuc b) = false
lt_ℤ (negsuc a) (pos b) = true
lt_ℤ (negsuc a) (negsuc b) = ltb b a

-- Whatever is not below b is above all that b is above.
pub lt_ℤ_of_ge : (a b c : ℤ) → lt_ℤ a b ≡ true → lt_ℤ c b ≡ false → lt_ℤ a c ≡ true
lt_ℤ_of_ge (pos a) (pos b) (pos c) h g = ground arith
lt_ℤ_of_ge (pos a) (pos b) (negsuc c) h g = cc
lt_ℤ_of_ge (pos a) (negsuc b) c h g = cc
lt_ℤ_of_ge (negsuc a) (pos b) (pos c) h g = refl
lt_ℤ_of_ge (negsuc a) (pos b) (negsuc c) h g = cc
lt_ℤ_of_ge (negsuc a) (negsuc b) (pos c) h g = refl
lt_ℤ_of_ge (negsuc a) (negsuc b) (negsuc c) h g = ground arith

pub lt_ℤ_asymm : (a b : ℤ) → lt_ℤ a b ≡ true → lt_ℤ b a ≡ false
lt_ℤ_asymm (pos a) (pos b) h = ground arith
lt_ℤ_asymm (pos a) (negsuc b) h = cc
lt_ℤ_asymm (negsuc a) (pos b) h = refl
lt_ℤ_asymm (negsuc a) (negsuc b) h = ground arith

-- The residues below 2 ^ 31 stand for themselves, the others for themselves less 2 ^ 32.
abbrev from_residue : ℕ → ℤ
from_residue r = if ltb r (2 ^ 31) then pos r else negsuc (2 ^ 32 - 1 - r)

unfoldable pub wrap_int32 : ℤ → ℤ
wrap_int32 (pos n) = from_residue (n % 2 ^ 32)
wrap_int32 (negsuc n) = from_residue (2 ^ 32 - 1 - n % 2 ^ 32)

abbrev pub IsInt32 : ℤ → Type 0
IsInt32 (pos n) = n < 2 ^ 31
IsInt32 (negsuc n) = n < 2 ^ 31

pub wrap_int32_of_IsInt32 : (z : ℤ) → IsInt32 z → wrap_int32 z ≡ z
unfolding wrap_int32
wrap_int32_of_IsInt32 (pos n) h = ground arith
wrap_int32_of_IsInt32 (negsuc n) h = ground arith
