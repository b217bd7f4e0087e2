-- ===== src/Prelude/Counting.antt =====
-- How many numbers below a bound pass a test.
use Prim.Native.Nat.{ℕ, zero, suc, ◌+◌, ◌≤◌, ◌<◌}
use mathlib.Core.Path.{◌≡◌, refl}
use mathlib.Core.Logic.{◌≢◌}
use mathlib.Core.Bool.{Bool, true, false}
use native.Mathlib.Omega.{arith}
use native.Mathlib.Decide.{ℕ_discrete}
use k_os.Prelude.Tests.{if◌then◌else◌}

unfoldable pub count_below : ℕ → (ℕ → Bool) → ℕ
count_below zero f = 0
count_below (suc n) f = count_below n f + (if f n then 1 else 0)

pub count_below-le : (n : ℕ) (f : ℕ → Bool) → count_below n f ≤ n
unfolding count_below
count_below-le zero f = omega arith
count_below-le (suc n) f = ground (arith, count_below-le n f)

pub count_below_same :
    (n : ℕ) (f g : ℕ → Bool) → ((i : ℕ) → i < n → g i ≡ f i) → count_below n g ≡ count_below n f
unfolding count_below
count_below_same zero f g h = refl
count_below_same (suc n) f g h =
    ground (arith, h n, count_below_same n f g (λ i p. h i (omega arith)))

-- One more number passes.
pub count_below_more :
    (n k : ℕ) (f g : ℕ → Bool)
    → k < n
    → f k ≡ false
    → g k ≡ true
    → ((i : ℕ) → i < n → k ≢ i → g i ≡ f i)
    → count_below n g ≡ count_below n f + 1
unfolding count_below
count_below_more zero k f g h no_f yes_g rest = absurd (omega arith)
count_below_more (suc n) k f g h no_f yes_g rest = elim (ℕ_discrete k n) [
  | yes e ↦
      let no_f' : f n ≡ false = rw e at no_f in
      let yes_g' : g n ≡ true = rw e at yes_g in
      let below =
        count_below_same n f g
          (λ i p. rest i (omega arith) (λ q. absurd (let r : n ≡ i = rw e at q in omega arith))) in
      rw (no_f', yes_g', below) (omega arith)
  | no ne ↦ ground (
    arith,
    rest n,
    count_below_more n k f g (omega arith) no_f yes_g (λ i p. rest i (omega arith)),
  )
]

pub count_below_none :
    (n : ℕ) (f : ℕ → Bool) → ((i : ℕ) → i < n → f i ≡ false) → count_below n f ≡ 0
unfolding count_below
count_below_none zero f h = refl
count_below_none (suc n) f h = ground (arith, h n, count_below_none n f (λ i p. h i (omega arith)))
