-- ===== src/Prelude/Bits.antt =====
-- Bits of bytes and words. `bit_and` and `bit_or` compute at numerals only: laws about a byte come
-- from a table of all values, laws about a word from the recursion on its digits.
use Prim.Native.Nat.{ℕ, zero, suc, ◌-◌, ◌%◌, ◌^◌, ◌<◌, bit_and, bit_or}
use mathlib.Core.Path.{◌≡◌, refl}
use mathlib.Core.Bool.{Bool, true, false, not, ◌&&◌, ◌||◌}
use native.Mathlib.Omega.{arith}
use native.Mathlib.Decide.{ℕ_discrete}
use k_os.Prelude.Tests.{◌==◌}

-- `b & (1 << i)` is not zero.
unfoldable pub test_bit : ℕ → ℕ → Bool
test_bit b i = not (bit_and b (2 ^ i) == 0)

-- `b |= (1 << i)` on a byte: the result of the int operation is cut to 8 bits.
unfoldable pub set_bit : ℕ → ℕ → ℕ
set_bit b i = bit_or b (2 ^ i) % 2 ^ 8

-- `b &= ~(1 << i)` on a byte: the mask is an int of 32 bits.
unfoldable pub clear_bit : ℕ → ℕ → ℕ
clear_bit b i = bit_and b (2 ^ 32 - 1 - 2 ^ i) % 2 ^ 8

-- A test at every number below a bound, from the smallest on.
unfoldable pub each_below : ℕ → (ℕ → Bool) → Bool
each_below zero test = true
each_below (suc bound) test = each_below bound test && test bound

pub each_below-at :
    (bound : ℕ) (test : ℕ → Bool) (i : ℕ) → i < bound → each_below bound test ≡ true → test i ≡ true
unfolding each_below
each_below-at zero test i below checked = absurd (omega arith)
each_below-at (suc bound) test i below checked = elim (ℕ_discrete i bound) [
  | yes e ↦ rw e (ground arith)
  | no ne ↦ each_below-at bound test i (omega arith) (ground arith)
]

-- Whether two truth values agree.
abbrev same : Bool → Bool → Bool
same true b = b
same false b = not b

same→eq : (a b : Bool) → same a b ≡ true → a ≡ b
same→eq a b h = ground arith

-- A statement about a byte and two bit numbers, checked at every value.
abbrev for_bytes : (ℕ → ℕ → ℕ → Bool) → Bool
for_bytes p = each_below 256 (λ b. each_below 8 (λ i. each_below 8 (λ j. p b i j)))

for_bytes_sound :
    (p : ℕ → ℕ → ℕ → Bool) (b i j : ℕ)
    → for_bytes p ≡ true
    → b < 256
    → i < 8
    → j < 8
    → p b i j ≡ true
for_bytes_sound p b i j h hb hi hj = each_below-at 8 (p b i) j hj (
    each_below-at 8 (λ i. each_below 8 (p b i)) i hi
      (each_below-at 256 (λ b. each_below 8 (λ i. each_below 8 (p b i))) b hb h))

set_bit_table :
    for_bytes (λ b i j. same (test_bit (set_bit b i) j) ((i == j) || test_bit b j)) ≡ true
unfolding each_below test_bit set_bit
set_bit_table = refl

pub test_bit-set_bit :
    (b i j : ℕ) → b < 256 → i < 8 → j < 8 → test_bit (set_bit b i) j ≡ ((i == j) || test_bit b j)
test_bit-set_bit b i j hb hi hj = same→eq _ _ (
    for_bytes_sound (λ b i j. same (test_bit (set_bit b i) j) ((i == j) || test_bit b j)) b i j
      set_bit_table hb hi hj)

clear_bit_table :
    for_bytes (λ b i j. same (test_bit (clear_bit b i) j) (not (i == j) && test_bit b j)) ≡ true
unfolding each_below test_bit clear_bit
clear_bit_table = refl

pub test_bit-clear_bit :
    (b i j : ℕ)
    → b < 256
    → i < 8
    → j < 8
    → test_bit (clear_bit b i) j ≡ (not (i == j) && test_bit b j)
test_bit-clear_bit b i j hb hi hj = same→eq _ _ (
    for_bytes_sound (λ b i j. same (test_bit (clear_bit b i) j) (not (i == j) && test_bit b j)) b i
      j clear_bit_table hb hi hj)

pub set_bit-lt : (b i : ℕ) → set_bit b i < 256
unfolding set_bit
set_bit-lt b i = omega arith

pub clear_bit-lt : (b i : ℕ) → clear_bit b i < 256
unfolding clear_bit
clear_bit-lt b i = omega arith

full_byte_table : each_below 8 (λ i. test_bit 0xff i) ≡ true
unfolding each_below test_bit
full_byte_table = refl

pub test_bit-full : (i : ℕ) → i < 8 → test_bit 0xff i ≡ true
test_bit-full i h = each_below-at 8 (λ i. test_bit 0xff i) i h full_byte_table

empty_byte_table : each_below 8 (λ i. not (test_bit 0 i)) ≡ true
unfolding each_below test_bit
empty_byte_table = refl

pub test_bit-empty : (i : ℕ) → i < 8 → test_bit 0 i ≡ false
test_bit-empty i h = ground (arith, each_below-at 8 (λ i. not (test_bit 0 i)) i h empty_byte_table)

-- The byte 1 is the empty byte with bit 0 set.
pub set_bit-zero : set_bit 0 0 ≡ 1
unfolding set_bit
set_bit-zero = refl
