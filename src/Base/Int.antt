-- ===== src/Base/Int.antt =====
-- Signed 64-bit integers, read as integers.
use Prim.Native.Nat.{ℕ, ◌-◌, ◌%◌, ◌^◌, ◌<◌}
use mathlib.Core.Path.{◌≡◌}
use mathlib.Core.Bool.{Bool, false}
use native.Mathlib.Omega.{arith}
use patrabahok.Base.Tests.{◌==◌, ltb, if◌then◌else◌}

-- `negsuc n` is -(n + 1).
pub data ℤ : Type 0 where
  pos : ℕ → ℤ
  negsuc : ℕ → ℤ

abbrev pub two_63 : ℕ
two_63 = 2 ^ 63

abbrev pub two_64 : ℕ
two_64 = 2 ^ 64

-- The int64 that a non-negative product leaves after wrap-around.
unfoldable pub wrap64 : ℕ → ℤ
wrap64 n = let r = n % two_64 in if ltb r two_63 then pos r else negsuc (two_64 - 1 - r)

-- x > 0
abbrev pub is_positive : ℤ → Bool
is_positive (pos n) = ltb 0 n
is_positive (negsuc n) = false

abbrev pub int_eq : ℤ → ℤ → Bool
int_eq (pos n) (pos m) = n == m
int_eq (negsuc n) (negsuc m) = n == m
int_eq _ _ = false

-- Without overflow nothing is lost.
pub wrap64_of_lt : (n : ℕ) → n < two_63 → wrap64 n ≡ pos n
unfolding wrap64
wrap64_of_lt n h = ground arith
