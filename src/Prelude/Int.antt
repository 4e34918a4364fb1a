-- ===== src/Prelude/Int.antt =====
-- Go's signed `int`, without its upper bound: `negsuc n` is -(n + 1).
use ragivka.Prelude.Tests.{ltb, leb, if◌then◌else◌}
use Prim.Native.Nat.{ℕ, ◌+◌, ◌-◌}
use mathlib.Core.Bool.{Bool, true, false}

pub data ℤ : Type 0 where
  pos : ℕ → ℤ
  negsuc : ℕ → ℤ

-- z > 0
abbrev pub is_positive : ℤ → Bool
is_positive (pos n) = ltb 0 n
is_positive (negsuc n) = false

-- z == 0
abbrev pub is_zero : ℤ → Bool
is_zero (pos n) = leb n 0
is_zero (negsuc n) = false

-- n > z
abbrev pub exceeds : ℕ → ℤ → Bool
exceeds n (pos k) = ltb k n
exceeds n (negsuc k) = true

-- z as a number of things, none if it is negative
abbrev pub to_nat : ℤ → ℕ
to_nat (pos n) = n
to_nat (negsuc n) = 0

-- n - z
abbrev pub nat_sub : ℕ → ℤ → ℤ
nat_sub n (pos k) = if leb k n then pos (n - k) else negsuc (k - n - 1)
nat_sub n (negsuc k) = pos (n + k + 1)
