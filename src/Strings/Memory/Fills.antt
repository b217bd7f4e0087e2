-- ===== src/Strings/Memory/Fills.antt =====
-- MemSet, byte by byte and word by word, fills the whole block with one byte.
use k_os.Prelude.{
  ℕ, zero, suc, ◌+◌, ◌-◌, ◌*◌, ◌/◌, ◌%◌, ◌^◌, ◌≤◌, ◌<◌, ◌≡◌, refl, ap, ◌∙◌, inl, inr, true, arith,
  leb, ◌==◌, if◌then◌else◌, leb→le, ==→eq, Bool-cases, either-branch,
}
use k_os.Prelude.Bits.{each_below, each_below-at}
use k_os.Strings.Memory.{
  Memory, inside, put, is_aligned, fill_word, Fill, fill_align_loop, fill_word_loop, fill_byte_loop,
  mem_set, secure_mem_zero,
}

-- The block holds the byte everywhere, and nothing else changes.
abbrev pub filled : ℕ → ℕ → ℕ → Memory → Memory
filled n at value m = λ x. if inside at n x then value else m x

fill_word_table :
    each_below 256 (λ v. each_below 8 (λ i. fill_word v / 2 ^ (8 * i) % 2 ^ 8 == v)) ≡ true
unfolding each_below fill_word
fill_word_table = refl

-- Each of the eight bytes of the word is the byte.
fill_word-byte : (v i : ℕ) → v < 256 → i < 8 → fill_word v / 2 ^ (8 * i) % 2 ^ 8 ≡ v
fill_word-byte v i hv hi = ==→eq _ _ (
    each_below-at 8 (λ i. fill_word v / 2 ^ (8 * i) % 2 ^ 8 == v) i hi
      (each_below-at 256 (λ v. each_below 8 (λ i. fill_word v / 2 ^ (8 * i) % 2 ^ 8 == v)) v hv
        fill_word_table))

module _ (value : ℕ) (byte : value < 256) where
  put_word : (at : ℕ) (m : Memory) (x : ℕ) → put 8 at (fill_word value) m x ≡ filled 8 at value m x
  put_word at m x = elim (Bool-cases (inside at 8 x)) [
    | inl y ↦ rw y (fill_word-byte value (x - at) byte (ground arith))
    | inr n ↦ rw n refl
  ]

  put_byte : (at : ℕ) (m : Memory) (x : ℕ) → put 1 at value m x ≡ filled 1 at value m x
  put_byte at m x = elim (Bool-cases (inside at 1 x)) [
    | inl y ↦ let first : x - at ≡ 0 = ground arith in rw y (rw first (omega arith))
    | inr n ↦ rw n refl
  ]

  module _ (m : Memory) (start n : ℕ) where
    -- The first `count` bytes have been written.
    record Filling (f : Fill) : Type 0 where
      count : ℕ
      here : f.at ≡ start + count
      rest : count + f.left ≡ n
      written : (x : ℕ) → f.memory x ≡ filled count start value m x

    next_filled :
        (v w : ℕ) (a b : Memory) (x : ℕ)
        → ((y : ℕ) → a y ≡ filled v start value m y)
        → b x ≡ filled w (start + v) value a x
        → b x ≡ filled (v + w) start value m x
    next_filled v w a b x h k = ground (arith, h x, k)

    step_byte :
        (f : Fill)
        → 1 ≤ f.left
        → Filling f
        → Filling (record { memory = put 1 f.at value f.memory; at = f.at + 1; left = f.left - 1 })
    step_byte f fits u = record {
      count = u.count + 1;
      here = omega (arith, u.here);
      rest = omega (arith, u.rest);
      written = λ x.
          next_filled u.count 1 f.memory (put 1 f.at value f.memory) x u.written
            (put_byte f.at f.memory x ∙ ap (λ a. filled 1 a value f.memory x) u.here);
    }

    step_word :
        (f : Fill)
        → 8 ≤ f.left
        → Filling f
        → Filling (record {
          memory = put 8 f.at (fill_word value) f.memory;
          at = f.at + 8;
          left = f.left - 8;
        })
    step_word f fits u = record {
      count = u.count + 8;
      here = omega (arith, u.here);
      rest = omega (arith, u.rest);
      written = λ x.
          next_filled u.count 8 f.memory (put 8 f.at (fill_word value) f.memory) x u.written
            (put_word f.at f.memory x ∙ ap (λ a. filled 8 a value f.memory x) u.here);
    }

    align-Filling :
        (k : ℕ) (f : Fill) → k ≡ f.left → Filling f → Filling (fill_align_loop value k f)
    unfolding fill_align_loop
    align-Filling zero f e u = u
    align-Filling (suc k) f e u =
        either-branch Filling (is_aligned f.at) f _ u
          (align-Filling k _ (omega arith) (step_byte f (omega arith) u))

    words-Filling : (k : ℕ) (f : Fill) → Filling f → Filling (fill_word_loop value k f)
    unfolding fill_word_loop
    words-Filling zero f u = u
    words-Filling (suc k) f u = elim (Bool-cases (leb 8 f.left)) [
      | inl y ↦ rw y (words-Filling k _ (step_word f (leb→le 8 f.left y) u))
      | inr no_word ↦ rw no_word u
    ]

    bytes_lem :
        (k : ℕ) (f : Fill)
        → k ≡ f.left
        → Filling f
        → (x : ℕ) → (fill_byte_loop value k f).memory x ≡ filled n start value m x
    unfolding fill_byte_loop
    bytes_lem zero f e u x =
        let all : u.count ≡ n = omega (arith, u.rest) in
        u.written x ∙ ap (λ w. filled w start value m x) all
    bytes_lem (suc k) f e u x = bytes_lem k _ (omega arith) (step_byte f (omega arith) u) x

    Filling-start : Filling (record { memory = m; at = start; left = n })
    Filling-start = record {
      count = 0;
      here = omega arith;
      rest = omega arith;
      written = λ x. ground arith;
    }

-- MemSet, whatever the alignment, sets every byte of the block to the lowest byte of C and no other byte;
-- SecureMemZero sets them to 0.
pub mem_set-filled :
    (m : Memory) (s c n x : ℕ)
    → (mem_set m s c n x ≡ filled n s (c % 256) m x) × (secure_mem_zero m s n x ≡ filled n s 0 m x)
unfolding mem_set secure_mem_zero
mem_set-filled m s c n x =
    let byte : c % 256 < 256 = omega arith in
    let f : Fill = record { memory = m; at = s; left = n } in
    let a = align-Filling (c % 256) byte m s n n f refl (Filling-start (c % 256) byte m s n) in
    let w = words-Filling (c % 256) byte m s n _ (fill_align_loop (c % 256) n f) a in
    (
      bytes_lem (c % 256) byte m s n _ _ refl w x,
      bytes_lem 0 (omega arith) m s n n f refl (Filling-start 0 (omega arith) m s n) x,
    )
