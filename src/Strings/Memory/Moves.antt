-- ===== src/Strings/Memory/Moves.antt =====
-- MemMove and MemCpy, byte by byte and word by word, are one copy of the whole block.
use k_os.Prelude.{
  ℕ, zero, suc, ◌+◌, ◌-◌, ◌≤◌, ◌≡◌, refl, sym, ap, ap₂, ◌∙◌, ◌⊎◌, inl, inr, Bool, true, false, ◌||◌,
  arith, ltb, leb, ◌==◌, ltb→lt, ltb→le, leb→le, ==→eq, Bool-cases, either-branch,
}
use k_os.Strings.Memory.{
  Memory, store, Cursor, is_aligned, align_up_loop, word_up_loop, byte_up_loop, align_down_loop,
  word_down_loop, byte_down_loop, copy_up, copy_down, mem_move, mem_cpy,
}
use k_os.Strings.Memory.Blocks.{
  store_up, store_apart, store_down, store_zero, store_same, store_cong,
}

abbrev step_up : ℕ → Cursor → Cursor
step_up w c = record {
  memory = store w c.dst c.src c.memory;
  dst = c.dst + w;
  src = c.src + w;
  left = c.left - w;
}

abbrev step_down : ℕ → Cursor → Cursor
step_down w c = record {
  memory = store w (c.dst - w) (c.src - w) c.memory;
  dst = c.dst - w;
  src = c.src - w;
  left = c.left - w;
}

module _ (m : Memory) (dst src n : ℕ) where
  -- The first `count` bytes have been copied.
  record Upwards (c : Cursor) : Type 0 where
    count : ℕ
    here : c.dst ≡ dst + count
    there : c.src ≡ src + count
    rest : count + c.left ≡ n
    copied : (x : ℕ) → c.memory x ≡ store count dst src m x

  -- The last `count` bytes have been copied.
  record Downwards (c : Cursor) : Type 0 where
    count : ℕ
    here : c.dst + count ≡ dst + n
    there : c.src + count ≡ src + n
    rest : count + c.left ≡ n
    copied : (x : ℕ) → c.memory x ≡ store count c.dst c.src m x

  module _ (clear : (dst ≤ src) ⊎ (src + n ≤ dst)) where
    store_next :
        (v w x : ℕ)
        → v + w ≤ n
        → store w (dst + v) (src + v) (store v dst src m) x ≡ store (v + w) dst src m x
    store_next v w x fits = elim clear [
      | inl le ↦ store_up v w dst src m x le
      | inr le ↦ store_apart v w dst src m x (omega arith)
    ]

    step_up-Upwards : (w : ℕ) (c : Cursor) → w ≤ c.left → Upwards c → Upwards (step_up w c)
    step_up-Upwards w c fits u = record {
      count = u.count + w;
      here = omega (arith, u.here);
      there = omega (arith, u.there);
      rest = omega (arith, u.rest);
      copied = λ x.
          store_cong w c.dst c.src c.memory (store u.count dst src m) u.copied x
          ∙ ap (λ d. store w d c.src (store u.count dst src m) x) u.here
          ∙ ap (λ s. store w (dst + u.count) s (store u.count dst src m) x) u.there
          ∙ store_next u.count w x (omega (arith, u.rest));
    }

    align_up-Upwards : (k : ℕ) (c : Cursor) → k ≡ c.left → Upwards c → Upwards (align_up_loop k c)
    unfolding align_up_loop
    align_up-Upwards zero c e u = u
    align_up-Upwards (suc k) c e u =
        either-branch Upwards (is_aligned c.dst) c _ u
          (align_up-Upwards k (step_up 1 c) (omega arith) (step_up-Upwards 1 c (omega arith) u))

    word_up-Upwards : (k : ℕ) (c : Cursor) → Upwards c → Upwards (word_up_loop k c)
    unfolding word_up_loop
    word_up-Upwards zero c u = u
    word_up-Upwards (suc k) c u = elim (Bool-cases (leb 8 c.left)) [
      | inl y ↦ rw y (word_up-Upwards k (step_up 8 c) (step_up-Upwards 8 c (leb→le 8 c.left y) u))
      | inr n ↦ rw n u
    ]

    byte_up_lem :
        (k : ℕ) (c : Cursor)
        → k ≡ c.left
        → Upwards c
        → (x : ℕ) → (byte_up_loop k c).memory x ≡ store n dst src m x
    unfolding byte_up_loop
    byte_up_lem zero c e u x =
        let all : u.count ≡ n = omega (arith, u.rest) in
        u.copied x ∙ ap (λ w. store w dst src m x) all
    byte_up_lem (suc k) c e u x =
        byte_up_lem k (step_up 1 c) (omega arith) (step_up-Upwards 1 c (omega arith) u) x

  start_up : Upwards (record { memory = m; dst = dst; src = src; left = n })
  start_up = record {
    count = 0;
    here = omega arith;
    there = omega arith;
    rest = omega arith;
    copied = λ x. sym (store_zero dst src m x);
  }

  module _ (le : src ≤ dst) where
    step_down-Downwards :
        (w : ℕ) (c : Cursor) → w ≤ c.left → Downwards c → Downwards (step_down w c)
    step_down-Downwards w c fits u =
        let d : c.dst - w + w ≡ c.dst = omega (arith, u.here, u.rest) in
        let s : c.src - w + w ≡ c.src = omega (arith, u.there, u.rest) in
        record {
          count = w + u.count;
          here = omega (arith, u.here, u.rest);
          there = omega (arith, u.there, u.rest);
          rest = omega (arith, u.rest);
          copied = λ x.
              store_cong w (c.dst - w) (c.src - w) c.memory (store u.count c.dst c.src m) u.copied x
              ∙ ap₂ (λ a b. store w (c.dst - w) (c.src - w) (store u.count a b m) x) (sym d) (sym s)
              ∙ store_down u.count w (c.dst - w) (c.src - w) m x
                  (omega (arith, u.here, u.there, u.rest));
        }

    align_down-Downwards :
        (k : ℕ) (c : Cursor) → k ≡ c.left → Downwards c → Downwards (align_down_loop k c)
    unfolding align_down_loop
    align_down-Downwards zero c e u = u
    align_down-Downwards (suc k) c e u = either-branch Downwards (is_aligned c.dst) c _ u (
        align_down-Downwards k (step_down 1 c) (omega arith)
          (step_down-Downwards 1 c (omega arith) u))

    word_down-Downwards : (k : ℕ) (c : Cursor) → Downwards c → Downwards (word_down_loop k c)
    unfolding word_down_loop
    word_down-Downwards zero c u = u
    word_down-Downwards (suc k) c u = elim (Bool-cases (leb 8 c.left)) [
      | inl y ↦
          rw y
            (word_down-Downwards k (step_down 8 c) (step_down-Downwards 8 c (leb→le 8 c.left y) u))
      | inr n ↦ rw n u
    ]

    byte_down_lem :
        (k : ℕ) (c : Cursor)
        → k ≡ c.left
        → Downwards c
        → (x : ℕ) → (byte_down_loop k c).memory x ≡ store n dst src m x
    unfolding byte_down_loop
    byte_down_lem zero c e u x =
        let all : u.count ≡ n = omega (arith, u.rest) in
        let d : c.dst ≡ dst = omega (arith, u.here) in
        let s : c.src ≡ src = omega (arith, u.there) in
        u.copied x ∙ ap (λ w. store w c.dst c.src m x) all ∙ ap₂ (λ a b. store n a b m x) d s
    byte_down_lem (suc k) c e u x =
        byte_down_lem k (step_down 1 c) (omega arith) (step_down-Downwards 1 c (omega arith) u) x

  start_down : Downwards (record { memory = m; dst = dst + n; src = src + n; left = n })
  start_down = record {
    count = 0;
    here = omega arith;
    there = omega arith;
    rest = omega arith;
    copied = λ x. sym (store_zero (dst + n) (src + n) m x);
  }

  -- MemMove, whatever the alignment and the overlap of the blocks, leaves at the i-th byte of the
  -- destination what the i-th byte of the source held before the call, and every other byte as it was.
  pub mem_move-store : (x : ℕ) → mem_move m dst src n x ≡ store n dst src m x
  unfolding mem_move copy_up copy_down
  mem_move-store x = elim (Bool-cases (n == 0)) [
    | inl nothing_left ↦
        let e = ==→eq _ _ nothing_left in
        rw nothing_left (sym (ap (λ w. store w dst src m x) e ∙ store_zero dst src m x))
    | inr some_bytes ↦ elim (Bool-cases (dst == src)) [
      | inl same ↦
          let e = ==→eq _ _ same in
          rw (some_bytes, same) (sym (ap (λ s. store n dst s m x) (sym e) ∙ store_same n dst m x))
      | inr apart ↦ elim (Bool-cases (ltb dst src)) [
        | inl below ↦
            let le : dst ≤ src = let lt = ltb→lt _ _ below in omega arith in
            let c : Cursor = record { memory = m; dst = dst; src = src; left = n } in
            let a = align_up-Upwards (inl le) n c refl start_up in
            let w = word_up-Upwards (inl le) (align_up_loop n c).left (align_up_loop n c) a in
            rw (some_bytes, apart, below) (byte_up_lem (inl le) _ _ refl w x)
        | inr above ↦
            let le = ltb→le _ _ above in
            let c : Cursor = record { memory = m; dst = dst + n; src = src + n; left = n } in
            let a = align_down-Downwards le n c refl start_down in
            let w = word_down-Downwards le (align_down_loop n c).left (align_down_loop n c) a in
            rw (some_bytes, apart, above) (byte_down_lem le _ _ refl w x)
      ]
    ]
  ]

  -- MemCpy does the same where the source does not start below the destination or ends before it.
  pub mem_cpy-store :
      (dst ≤ src) ⊎ (src + n ≤ dst) → (x : ℕ) → mem_cpy m dst src n x ≡ store n dst src m x
  unfolding mem_cpy
  mem_cpy-store clear x = elim (Bool-cases (n == 0 || dst == src)) [
    | inl nothing_left ↦ rw nothing_left (nothing (n == 0) (dst == src) refl refl nothing_left)
    | inr some_bytes ↦ rw some_bytes (byte_up_lem clear n _ refl start_up x)
  ]
    where
      nothing :
          (a b : Bool)
          → (n == 0) ≡ a
          → (dst == src) ≡ b
          → (a || b) ≡ true
          → m x ≡ store n dst src m x
      nothing true b p q h =
          sym (ap (λ w. store w dst src m x) (==→eq _ _ p) ∙ store_zero dst src m x)
      nothing false true p q h =
          sym (ap (λ s. store n dst s m x) (sym (==→eq _ _ q)) ∙ store_same n dst m x)
      nothing false false p q h = ground arith
