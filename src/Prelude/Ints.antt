-- ===== src/Prelude/Ints.antt =====
-- Integers over the native numbers, for the results of C functions that may be negative.
use Prim.Native.Nat.{ℕ, ◌-◌}
use mathlib.Core.Path.{◌≡◌}
use native.Mathlib.Omega.{arith}
use k_os.Prelude.Tests.{ltb, if◌then◌else◌}

pub data ℤ : Type 0 where
  pos : ℕ → ℤ
  negsuc : ℕ → ℤ

-- The difference of two bytes or characters as an INT.
abbrev pub sub_int : ℕ → ℕ → ℤ
sub_int a b = if ltb a b then negsuc (b - a - 1) else pos (a - b)

-- A product with the sign 1 or -1.
abbrev pub neg : ℕ → ℤ
neg a = if ltb 0 a then negsuc (a - 1) else pos 0

pub sub_int_self : (a : ℕ) → sub_int a a ≡ pos 0
sub_int_self a = ground arith

pub sub_int-eq : (a b : ℕ) → sub_int a b ≡ pos 0 → a ≡ b
sub_int-eq a b h = ground arith
