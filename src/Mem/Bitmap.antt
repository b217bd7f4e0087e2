-- ===== src/Mem/Bitmap.antt =====
-- A bitmap of bytes, as Kernel/Source/Mem/PhysAlloc.c reads and writes it: bit `i % 8` of byte `i / 8`.
use k_os.Prelude.{
  ℕ, ◌*◌, ◌/◌, ◌%◌, ◌≤◌, ◌<◌, ◌+◌, ◌≡◌, ap, Bool, true, false, not, ◌||◌, ◌&&◌, List, arith, ◌==◌,
  if◌then◌else◌, Bool-cases, inl, inr, ==→eq, ==→ne, ne→==, ==_refl, length, get_or, set,
  length-set, get_or-set_self, get_or-set_ne, All, All-set, All-get_or,
}
use k_os.Prelude.Counting.{count_below, count_below_more}
use k_os.Prelude.Bits.{
  test_bit, set_bit, clear_bit, test_bit-set_bit, test_bit-clear_bit, set_bit-lt, clear_bit-lt,
  test_bit-full,
}

abbrev pub IsBytes : List ℕ → Type 0
IsBytes = All (λ b. b < 256)

unfoldable pub bit_at : List ℕ → ℕ → Bool
bit_at bm i = test_bit (get_or bm (i / 8) 0) (i % 8)

-- Bitmap[i / 8] |= (1 << i % 8)
unfoldable pub set_at : List ℕ → ℕ → List ℕ
set_at bm i = set bm (i / 8) (set_bit (get_or bm (i / 8) 0) (i % 8))

-- Bitmap[i / 8] &= ~(1 << i % 8)
unfoldable pub clear_at : List ℕ → ℕ → List ℕ
clear_at bm i = set bm (i / 8) (clear_bit (get_or bm (i / 8) 0) (i % 8))

module _ (bm : List ℕ) (bytes : IsBytes bm) where
  pub byte-lt : (b : ℕ) → get_or bm b 0 < 256
  byte-lt b = All-get_or (λ b. b < 256) bm b 0 bytes (omega arith)

  -- A write of one byte, read back bit by bit.
  bit_at-set :
      (b v j : ℕ)
      → b < length bm
      → bit_at (set bm b v) j ≡ (if b == j / 8 then test_bit v (j % 8) else bit_at bm j)
  unfolding bit_at
  bit_at-set b v j h = elim (Bool-cases (b == j / 8)) [
    | inl e ↦ rw (e, ← ==→eq b (j / 8) e, get_or-set_self bm b v 0 h)
    | inr ne ↦ rw (ne, get_or-set_ne bm b (j / 8) v 0 (==→ne _ _ ne))
  ]

  same_byte : (i j : ℕ) → (i / 8 == j / 8) ≡ true → (i % 8 == j % 8) ≡ (i == j)
  same_byte i j e = ground (arith, ==→eq (i / 8) (j / 8) e)

  other_byte : (i j : ℕ) → (i / 8 == j / 8) ≡ false → (i == j) ≡ false
  other_byte i j ne = ne→== i j (λ e. ==→ne _ _ ne (ap (λ k. k / 8) e))

  pub bit_at-set_at :
      (i j : ℕ) → i < 8 * length bm → bit_at (set_at bm i) j ≡ ((i == j) || bit_at bm j)
  unfolding set_at bit_at
  bit_at-set_at i j h = elim (Bool-cases (i / 8 == j / 8)) [
    | inl e ↦
        rw
          (
            bit_at-set (i / 8) (set_bit (get_or bm (i / 8) 0) (i % 8)) j (omega arith),
            e,
            test_bit-set_bit (get_or bm (i / 8) 0) (i % 8) (j % 8) (byte-lt (i / 8)) (omega arith)
                (omega arith),
            same_byte i j e,
          )
          (rw (bit_at, ==→eq (i / 8) (j / 8) e))
    | inr ne ↦ rw (
      bit_at-set (i / 8) (set_bit (get_or bm (i / 8) 0) (i % 8)) j (omega arith),
      ne,
      other_byte i j ne,
    )
  ]

  pub bit_at-clear_at :
      (i j : ℕ) → i < 8 * length bm → bit_at (clear_at bm i) j ≡ (not (i == j) && bit_at bm j)
  unfolding clear_at bit_at
  bit_at-clear_at i j h = elim (Bool-cases (i / 8 == j / 8)) [
    | inl e ↦
        rw
          (
            bit_at-set (i / 8) (clear_bit (get_or bm (i / 8) 0) (i % 8)) j (omega arith),
            e,
            test_bit-clear_bit (get_or bm (i / 8) 0) (i % 8) (j % 8) (byte-lt (i / 8)) (omega arith)
                (omega arith),
            same_byte i j e,
          )
          (rw (bit_at, ==→eq (i / 8) (j / 8) e))
    | inr ne ↦ rw (
      bit_at-set (i / 8) (clear_bit (get_or bm (i / 8) 0) (i % 8)) j (omega arith),
      ne,
      other_byte i j ne,
    )
  ]

  -- The number of set bits below `n` moves by one when a bit below `n` changes.
  pub count-set_at :
      (n i : ℕ)
      → i < n
      → n ≤ 8 * length bm
      → bit_at bm i ≡ false
      → count_below n (bit_at (set_at bm i)) ≡ count_below n (bit_at bm) + 1
  count-set_at n i h room off =
      count_below_more n i (bit_at bm) (bit_at (set_at bm i)) h off
        (rw (bit_at-set_at i i (omega arith), ==_refl i))
        (λ j _ ne. rw (bit_at-set_at i j (omega arith), ne→== i j ne))

  pub count-clear_at :
      (n i : ℕ)
      → i < n
      → n ≤ 8 * length bm
      → bit_at bm i ≡ true
      → count_below n (bit_at bm) ≡ count_below n (bit_at (clear_at bm i)) + 1
  count-clear_at n i h room on =
      count_below_more n i (bit_at (clear_at bm i)) (bit_at bm) h
        (rw (bit_at-clear_at i i (omega arith), ==_refl i)) on
        (λ j _ ne. rw (bit_at-clear_at i j (omega arith), ne→== i j ne))

  pub set_at-IsBytes : (i : ℕ) → IsBytes (set_at bm i)
  unfolding set_at
  set_at-IsBytes i = All-set (λ b. b < 256) bm _ _ bytes (set_bit-lt _ _)

  pub clear_at-IsBytes : (i : ℕ) → IsBytes (clear_at bm i)
  unfolding clear_at
  clear_at-IsBytes i = All-set (λ b. b < 256) bm _ _ bytes (clear_bit-lt _ _)

pub length-set_at : (bm : List ℕ) (i : ℕ) → length (set_at bm i) ≡ length bm
unfolding set_at
length-set_at bm i = length-set bm _ _

pub length-clear_at : (bm : List ℕ) (i : ℕ) → length (clear_at bm i) ≡ length bm
unfolding clear_at
length-clear_at bm i = length-set bm _ _

-- Bit `bit` of byte `b` is bit `b * 8 + bit` of the map.
pub bit_at-byte :
    (bm : List ℕ) (b bit : ℕ) → bit < 8 → bit_at bm (b * 8 + bit) ≡ test_bit (get_or bm b 0) bit
unfolding bit_at
bit_at-byte bm b bit h =
    let q : (b * 8 + bit) / 8 ≡ b = omega arith in
    let r : (b * 8 + bit) % 8 ≡ bit = omega arith in rw (q, r)

pub bit_at-full : (bm : List ℕ) (i : ℕ) → get_or bm (i / 8) 0 ≡ 0xff → bit_at bm i ≡ true
unfolding bit_at
bit_at-full bm i e = rw e (test_bit-full (i % 8) (omega arith))

pub set_at-byte :
    (bm : List ℕ) (b bit : ℕ)
    → bit < 8
    → set_at bm (b * 8 + bit) ≡ set bm b (set_bit (get_or bm b 0) bit)
unfolding set_at
set_at-byte bm b bit h =
    let q : (b * 8 + bit) / 8 ≡ b = omega arith in
    let r : (b * 8 + bit) % 8 ≡ bit = omega arith in rw (q, r)
