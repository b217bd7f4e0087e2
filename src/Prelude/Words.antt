-- ===== src/Prelude/Words.antt =====
-- Rounding an address by a mask: `x & ~(2^k - 1)` on a word of `w` bits is `x` less its `k` low bits.
use Prim.Native.Nat.{
  ℕ, zero, suc, ◌+◌, ◌-◌, ◌*◌, ◌/◌, ◌%◌, ◌^◌, ◌≤◌, ◌<◌, min, bit_and, digits, bit_and-bitwise,
}
use mathlib.Core.Path.{◌≡◌, refl, subst, ◌∙◌}
use native.Mathlib.Nat.{pow-suc, pow-le-pow_right}
use native.Mathlib.Omega.{arith}

-- The digits of a conjunction, in a number of rounds.
abbrev rounds_of_and : ℕ → ℕ → ℕ → ℕ
rounds_of_and = digits (λ _. 0) min

-- One round more than the number is large changes nothing, and so do any number of them.
one_more_round : (x y k : ℕ) → x ≤ k → rounds_of_and (suc k) x y ≡ rounds_of_and k x y
one_more_round zero y zero h = refl
one_more_round zero y (suc k) h = refl
one_more_round (suc x) y zero h = absurd (omega arith)
one_more_round (suc x) y (suc k) h =
    let half = one_more_round (suc x / 2) (y / 2) k (omega arith) in omega (arith, half)

more_rounds : (d x y k : ℕ) → x ≤ k → rounds_of_and (k + d) x y ≡ rounds_of_and k x y
more_rounds zero x y k h = let e : k + 0 ≡ k = omega arith in rw e refl
more_rounds (suc d) x y k h =
    let e : k + suc d ≡ suc (k + d) = omega arith in
    rw (e, one_more_round x y (k + d) (omega arith)) (more_rounds d x y k h)

-- The lowest digit, and the rest.
bit_and-halve : (x y : ℕ) → bit_and x y ≡ bit_and (x / 2) (y / 2) * 2 + min (x % 2) (y % 2)
bit_and-halve zero y = let none = bit_and-bitwise zero in omega (arith, none y, none (y / 2))
bit_and-halve (suc x) y =
    let half = suc x / 2 in
    let e : half + (x - half) ≡ x = omega arith in
    let rest : rounds_of_and x half (y / 2) ≡ rounds_of_and half half (y / 2) =
      subst (λ k. rounds_of_and k half (y / 2) ≡ rounds_of_and half half (y / 2)) e
        (more_rounds (x - half) half (y / 2) half (omega arith)) in
    omega (arith, bit_and-bitwise half (y / 2), rest, bit_and-bitwise (suc x) y)

pow_pos : (k : ℕ) → 1 ≤ 2 ^ k
pow_pos zero = omega arith
pow_pos (suc k) = omega (arith, pow-suc 2 k, pow_pos k)

bit_and_even : (x y : ℕ) → bit_and x (y * 2) ≡ bit_and (x / 2) y * 2
bit_and_even x y =
    let half : y * 2 / 2 ≡ y = omega arith in
    let low : y * 2 % 2 ≡ 0 = omega arith in rw (bit_and-halve x (y * 2), half, low) (omega arith)

bit_and_odd : (x y : ℕ) → bit_and x (y * 2 + 1) ≡ bit_and (x / 2) y * 2 + x % 2
bit_and_odd x y =
    let half : (y * 2 + 1) / 2 ≡ y = omega arith in
    let low : (y * 2 + 1) % 2 ≡ 1 = omega arith in
    rw (bit_and-halve x (y * 2 + 1), half, low) (omega arith)

bit_and_ones : (w x : ℕ) → x < 2 ^ w → bit_and x (2 ^ w - 1) ≡ x
bit_and_ones zero x h = let e : x ≡ 0 = omega arith in rw e (bit_and-bitwise 0 0)
bit_and_ones (suc w) x h =
    let e : 2 ^ suc w - 1 ≡ (2 ^ w - 1) * 2 + 1 = omega (arith, pow-suc 2 w, pow_pos w) in
    rw (e, bit_and_odd) (omega (arith, bit_and_ones w (x / 2) (omega (arith, pow-suc 2 w))))

mod_double : (x k : ℕ) → 0 < k → x % (k * 2) ≡ x / 2 % k * 2 + x % 2
mod_double x k h = grind arith

-- `x & (2^m - 2^k)` clears the `k` low bits of an `m`-bit number.
pub bit_and_mask : (k m x : ℕ) → k ≤ m → x < 2 ^ m → bit_and x (2 ^ m - 2 ^ k) + x % 2 ^ k ≡ x
bit_and_mask zero m x le h = omega (arith, bit_and_ones m x h)
bit_and_mask (suc k) zero x le h = absurd (omega arith)
bit_and_mask (suc k) (suc m) x le h =
    let e : 2 ^ suc m - 2 ^ suc k ≡ (2 ^ m - 2 ^ k) * 2 = omega (arith, pow-suc 2 m, pow-suc 2 k) in
    let ih = bit_and_mask k m (x / 2) (omega arith) (omega (arith, pow-suc 2 m)) in
    rw (e, bit_and_even) (rw (pow-suc 2 k, mod_double x (2 ^ k) (pow_pos k)) (omega (arith, ih)))

-- `x & ~(PAGE_SIZE - 1)` on a word of 64 bits: PAGE_SIZE is an int, its complement is widened.
unfoldable pub page_mask : ℕ → ℕ
page_mask x = bit_and x (2 ^ 64 - 4096)

pub page_mask_lem : (x : ℕ) → x < 2 ^ 64 → page_mask x + x % 4096 ≡ x
unfolding page_mask
page_mask_lem x h = bit_and_mask 12 64 x (omega arith) h

-- `x & ~(2^k - 1)` on a word of 64 bits.
unfoldable pub align_mask : ℕ → ℕ → ℕ
align_mask k x = bit_and x (2 ^ 64 - 2 ^ k)

pub align_mask_lem : (k x : ℕ) → k ≤ 64 → x < 2 ^ 64 → align_mask k x + x % 2 ^ k ≡ x
unfolding align_mask
align_mask_lem k x le h = bit_and_mask k 64 x le h

-- A power of two has no bit in common with the number below it.
pub bit_and_power : (k : ℕ) → bit_and (2 ^ k) (2 ^ k - 1) ≡ 0
bit_and_power zero = bit_and-bitwise 1 0 ∙ omega arith
bit_and_power (suc k) =
    let half : (2 ^ suc k) / 2 ≡ 2 ^ k = omega (arith, pow-suc 2 k) in
    let below : (2 ^ suc k - 1) / 2 ≡ 2 ^ k - 1 = omega (arith, pow-suc 2 k) in
    let even : 2 ^ suc k % 2 ≡ 0 = omega (arith, pow-suc 2 k) in
    bit_and-halve (2 ^ suc k) (2 ^ suc k - 1)
    ∙ rw (half, below, even, bit_and_power k) (omega arith)

power_small : (k : ℕ) → k < 44 → (0 < 2 ^ k) × (2 ^ k ≤ 2 ^ 43)
power_small k lt =
    let two : 0 < 2 = omega arith in
    let low : 0 ≤ k = omega arith in
    let high : k ≤ 43 = omega arith in
    let one : 2 ^ 0 ≤ 2 ^ k = pow-le-pow_right two low in (omega arith, pow-le-pow_right two high)

rounded_down : (x a : ℕ) → 0 < a → ((x - x % a) % a ≡ 0) × (x % a < a)
rounded_down x a pos = (grind arith, grind arith)

-- Rounding up on a word of 64 bits: `(x + 2^k - 1) & ~(2^k - 1)`.
pub round_up_lem :
    (k x : ℕ)
    → k < 44
    → x < 2 ^ 62
    → (bit_and ((x + 2 ^ k - 1) % 2 ^ 64) (2 ^ 64 - 2 ^ k) % 2 ^ k ≡ 0)
      × (x ≤ bit_and ((x + 2 ^ k - 1) % 2 ^ 64) (2 ^ 64 - 2 ^ k))
      × (bit_and ((x + 2 ^ k - 1) % 2 ^ 64) (2 ^ 64 - 2 ^ k) < x + 2 ^ k)
round_up_lem k x lt small =
    let (pos, bound) = power_small k lt in
    let y = x + 2 ^ k - 1 in
    let whole : y % 2 ^ 64 ≡ y = omega arith in
    let mask = bit_and_mask k 64 y (omega arith) (omega arith) in
    let down : bit_and y (2 ^ 64 - 2 ^ k) ≡ y - y % 2 ^ k = omega (arith, mask) in
    let (even, rest) = rounded_down y (2 ^ k) pos in
    rw (whole, down) (even, omega (arith, rest), omega (arith, rest))
