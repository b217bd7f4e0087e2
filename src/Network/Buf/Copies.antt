-- ===== src/Network/Buf/Copies.antt =====
-- NetworkBufClone: what the copy holds, and which buffers cannot be copied.
use k_os.Prelude.{
  ℕ, zero, suc, ◌+◌, ◌-◌, ◌%◌, ◌^◌, ◌≤◌, ◌<◌, ◌≡◌, refl, ap, ◌∙◌, ◌≢◌, ◌⊎◌, inl, inr, Option, none,
  some, List, arith, ltb, ltb→lt, ltb→le, lt→ltb, le→ltb, ne→==, Bool-cases, in_branch, length,
  get_or, set, length-set, get_or-set_self, get_or-set_ne,
}
use native.Mathlib.Decide.{ℕ_discrete}
use k_os.Network.Buf.{
  NetworkBuf, Allocation, fresh_buf, clone_result, alloc_buf, copy, clone_into, clone,
}
use k_os.Network.Buf.Windows.{IsValid}

length-copy :
    (n : ℕ) (dst : List ℕ) (to : ℕ) (src : List ℕ) (start : ℕ)
    → length (copy n dst to src start) ≡ length dst
unfolding copy
length-copy zero dst to src start = refl
length-copy (suc n) dst to src start =
    length-copy n (set dst to (get_or src start 0)) (suc to) src (suc start)
    ∙ length-set dst to (get_or src start 0)

-- A byte before the range is not written.
copy-before :
    (n : ℕ) (dst : List ℕ) (to : ℕ) (src : List ℕ) (start j : ℕ)
    → j < to
    → get_or (copy n dst to src start) j 0 ≡ get_or dst j 0
unfolding copy
copy-before zero dst to src start j h = refl
copy-before (suc n) dst to src start j h =
    copy-before n (set dst to (get_or src start 0)) (suc to) src (suc start) j (omega arith)
    ∙ get_or-set_ne dst to j (get_or src start 0) 0 (omega arith)

-- The i-th byte of the range is the i-th byte of the source.
copy-inside :
    (n : ℕ) (dst : List ℕ) (to : ℕ) (src : List ℕ) (start i : ℕ)
    → to + n ≤ length dst
    → i < n
    → get_or (copy n dst to src start) (to + i) 0 ≡ get_or src (start + i) 0
unfolding copy
copy-inside zero dst to src start i room h = absurd (omega arith)
copy-inside (suc n) dst to src start zero room h =
    let here : to + 0 ≡ to = omega arith in
    let there : start + 0 ≡ start = omega arith in
    rw (here, there)
      (copy-before n (set dst to (get_or src start 0)) (suc to) src (suc start) to (omega arith)
        ∙ get_or-set_self dst to (get_or src start 0) 0 (omega arith))
copy-inside (suc n) dst to src start (suc i) room h =
    let here : to + suc i ≡ suc to + i = omega arith in
    let there : start + suc i ≡ suc start + i = omega arith in
    rw (here, there)
      (copy-inside n (set dst to (get_or src start 0)) (suc to) src (suc start) i
        (omega (arith, length-set dst to (get_or src start 0))) (omega arith))

-- The copy is a buffer of its own with the same window, and its payload is the source's.
pub record Copied (src dst : NetworkBuf) : Type 0 where
  pub valid : IsValid dst
  pub len : dst.len ≡ src.len
  pub head_room : dst.head_room ≡ src.head_room
  pub protocol : dst.protocol ≡ src.protocol
  pub ref_count : dst.ref_count ≡ 1
  pub payload :
      (i : ℕ)
      → i < src.len
      → get_or dst.bytes (dst.data_ptr - dst.head + i) 0
        ≡ get_or src.bytes (src.data_ptr - src.head + i) 0

module _ (m : Allocation) (src : NetworkBuf) (v : IsValid src) where
  clone_small :
      m.buf_ptr ≢ 0
      → m.head_ptr ≢ 0
      → src.head_room + src.len ≤ 1500
      → length m.garbage ≡ src.head_room + src.len + 128
      → (dst : NetworkBuf) × (clone m src ≡ some dst) × Copied src dst
  unfolding clone alloc_buf clone_into
  clone_small nb nh small size =
      let sum : (src.len + src.head_room) % 2 ^ 32 ≡ src.len + src.head_room = omega arith in
      let used : (src.data_ptr - src.head) % 2 ^ 32 ≡ src.data_ptr - src.head =
        omega (arith, v.head_room) in
      let used_le : src.data_ptr - src.head + src.len ≤ length m.garbage =
        omega (arith, v.head_room) in
      (
        clone_into src (fresh_buf m (src.len + src.head_room)),
        rw
            (
              sum,
              le→ltb 1628 (src.len + src.head_room) (omega arith),
              le→ltb 1500 (src.len + src.head_room) (omega arith),
              ne→== m.buf_ptr 0 nb,
              ne→== m.head_ptr 0 nh,
            )
            refl,
        record {
          valid = record {
            order = (omega arith, omega arith, omega (arith, used, v.head_room));
            len = omega arith;
            head_room = omega (arith, used, v.head_room);
            true_size = omega arith;
            small = omega arith;
          };
          len = refl;
          head_room = refl;
          protocol = refl;
          ref_count = refl;
          payload = λ i h.
              let at : m.head_ptr + (src.data_ptr - src.head) % 2 ^ 32 - m.head_ptr + i
                  ≡ (src.data_ptr - src.head) + i =
                omega (arith, used) in
              rw (at, used, ne→== src.len 0 (omega arith))
                (copy-inside src.len m.garbage (src.data_ptr - src.head) src.bytes
                  (src.data_ptr - src.head) i used_le h);
        },
      )

  clone_big : 1500 < src.head_room + src.len → clone m src ≡ none
  unfolding clone alloc_buf
  clone_big big =
      let h = v.head_room in
      let l = v.len in
      let (a, b, c) = v.order in
      let s = v.small in
      let t = v.true_size in
      let sum : (src.len + src.head_room) % 2 ^ 32 ≡ src.len + src.head_room = omega arith in
      let over = lt→ltb 1500 (src.len + src.head_room) (omega arith) in
      in_branch (λ (x : Option NetworkBuf). x ≡ none)
        (ltb 1628 ((src.len + src.head_room) % 2 ^ 32)) none _ (λ _. refl)
        (λ _. rw (sum, over) refl)

  alloc_none : (n : ℕ) → (m.buf_ptr ≡ 0) ⊎ (m.head_ptr ≡ 0) → alloc_buf m n ≡ none
  unfolding alloc_buf
  alloc_none n failed =
      in_branch (λ (x : Option NetworkBuf). x ≡ none) (ltb 1500 n) none _ (λ _. refl)
        (λ _. elim (ℕ_discrete m.buf_ptr 0) [
          | yes z ↦ rw z refl
          | no nb ↦ elim failed [
            | inl z ↦ absurd (nb z)
            | inr z ↦ rw (ne→== m.buf_ptr 0 nb, z) refl
          ]
        ])

  clone-none : (m.buf_ptr ≡ 0) ⊎ (m.head_ptr ≡ 0) → clone m src ≡ none
  unfolding clone
  clone-none failed =
      let size = (src.len + src.head_room) % 2 ^ 32 in
      in_branch (λ (x : Option NetworkBuf). x ≡ none) (ltb 1628 size) none _ (λ _. refl)
        (λ _. ap (clone_result src) (alloc_none size failed))

  -- NetworkBufClone of a well-formed buffer, of any size, where the memory that MemoryAllocate has for the
  -- copy is as long as it asks for. Where head room and payload are together more than an MTU, 1,500 bytes,
  -- it answers NULLPTR, whatever memory there is. Otherwise it answers NULLPTR where one of the two
  -- allocations fails, and where both are made a well-formed buffer with the same window, protocol and
  -- payload and one reference.
  pub clone_lem :
      length m.garbage ≡ src.head_room + src.len + 128
      → ((1500 < src.head_room + src.len) × (clone m src ≡ none))
        ⊎ (((src.head_room + src.len ≤ 1500)
              × ((m.buf_ptr ≡ 0) ⊎ (m.head_ptr ≡ 0))
              × (clone m src ≡ none))
            ⊎ ((src.head_room + src.len ≤ 1500)
                × (m.buf_ptr ≢ 0)
                × (m.head_ptr ≢ 0)
                × ((dst : NetworkBuf) × (clone m src ≡ some dst) × Copied src dst)))
  clone_lem size = elim (Bool-cases (ltb 1500 (src.head_room + src.len))) [
    | inl y ↦ inl (ltb→lt _ _ y, clone_big (ltb→lt _ _ y))
    | inr n ↦
        let small = ltb→le _ _ n in
        elim (ℕ_discrete m.buf_ptr 0) [
          | yes z ↦ inr (inl (small, inl z, clone-none (inl z)))
          | no nb ↦ elim (ℕ_discrete m.head_ptr 0) [
            | yes z ↦ inr (inl (small, inr z, clone-none (inr z)))
            | no nh ↦ inr (inr (small, nb, nh, clone_small nb nh small size))
          ]
        ]
  ]
