-- ===== src/Prelude/Int.antt =====
-- Go's signed integers: `negsuc n` is -(n + 1).
use Prim.Native.Nat.{ℕ, zero, suc, ◌-◌, ◌%◌, ◌^◌}
use mathlib.Core.Bool.{Bool, true, false}
use filestore_hsz.Prelude.Tests.{ltb, leb, ◌==◌, if◌then◌else◌}

pub data ℤ : Type 0 where
  pos : ℕ → ℤ
  negsuc : ℕ → ℤ

-- -n
abbrev pub neg : ℕ → ℤ
neg zero = pos 0
neg (suc n) = negsuc n

abbrev pub ltb_ℤ : ℤ → ℤ → Bool
ltb_ℤ (pos a) (pos b) = ltb a b
ltb_ℤ (pos a) (negsuc b) = false
ltb_ℤ (negsuc a) (pos b) = true
ltb_ℤ (negsuc a) (negsuc b) = ltb b a

abbrev pub eqb_ℤ : ℤ → ℤ → Bool
eqb_ℤ (pos a) (pos b) = a == b
eqb_ℤ (pos a) (negsuc b) = false
eqb_ℤ (negsuc a) (pos b) = false
eqb_ℤ (negsuc a) (negsuc b) = a == b

-- a - b
abbrev pub sub_ℕ : ℕ → ℕ → ℤ
sub_ℕ a b = if leb b a then pos (a - b) else negsuc (b - a - 1)

-- `int32(i)`: the low 32 bits, read as a signed integer
low_bits : ℤ → ℕ
low_bits (pos n) = n % 2 ^ 32
low_bits (negsuc n) = 2 ^ 32 - 1 - n % 2 ^ 32

signed_32 : ℕ → ℤ
signed_32 m = if ltb m (2 ^ 31) then pos m else neg (2 ^ 32 - m)

unfoldable pub to_int32 : ℤ → ℤ
unfolding low_bits signed_32
to_int32 i = signed_32 (low_bits i)
