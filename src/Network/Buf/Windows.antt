-- ===== src/Network/Buf/Windows.antt =====
-- The window of a buffer stays inside its allocation, and headers that are pushed can be popped.
use k_os.Prelude.{
  ℕ, ◌+◌, ◌-◌, ◌%◌, ◌^◌, ◌≤◌, ◌<◌, ◌≡◌, refl, ◌≢◌, ◌⊎◌, inl, inr, none, some, arith, ltb, ltb→lt,
  ltb→le, le→ltb, ne→==, Bool-cases,
}
use k_os.Network.Buf.{
  NetworkBuf, Allocation, Status, success, incorrect_value, fresh_buf, alloc_buf, reserve, put,
  pull, trim,
}

-- The pointers are in order inside an allocation of less than 4 GiB that does not wrap, and the
-- fields that the header's comments define by them are what they say.
pub record IsValid (b : NetworkBuf) : Type 0 where
  pub order : (b.head ≤ b.data_ptr) × (b.data_ptr ≤ b.tail) × (b.tail ≤ b.end)
  pub len : b.len ≡ b.tail - b.data_ptr
  pub head_room : b.head_room ≡ b.data_ptr - b.head
  pub true_size : b.true_size ≡ b.end - b.head
  pub small : b.true_size < 2 ^ 31

-- NetworkAllocBuf answers a buffer of at most an MTU with an empty window behind the head room.
pub alloc_buf-IsValid :
    (m : Allocation) (size : ℕ)
    → m.buf_ptr ≢ 0
    → m.head_ptr ≢ 0
    → ((b : NetworkBuf) × (alloc_buf m size ≡ some b)
        × IsValid b
        × (b.len ≡ 0)
        × (b.end ≡ b.tail + size)
        × (b.head_room ≡ 128))
      ⊎ ((1500 < size) × (alloc_buf m size ≡ none))
unfolding alloc_buf
alloc_buf-IsValid m size nb nh = elim (Bool-cases (ltb 1500 size)) [
  | inl y ↦ inr (ltb→lt _ _ y, rw y refl)
  | inr n ↦
      let le = ltb→le _ _ n in
      inl (
        fresh_buf m size,
        rw (n, ne→== m.buf_ptr 0 nb, ne→== m.head_ptr 0 nh) refl,
        record {
          order = (omega arith, omega arith, omega arith);
          len = omega arith;
          head_room = omega arith;
          true_size = omega arith;
          small = omega arith;
        },
        refl,
        omega arith,
        refl,
      )
]

-- An operation on a well formed buffer: it succeeds where its guard holds and keeps the buffer well
-- formed with the given window, or it fails and changes nothing.
abbrev pub Moves : NetworkBuf → Type 0 → ℕ → ℕ → NetworkBuf × Status → Type 0
Moves b refused front back r =
    (IsValid r.0
      × (r.0.data_ptr ≡ front)
      × (r.0.tail ≡ back)
      × (r.0.bytes ≡ b.bytes)
      × (r.1 ≡ success))
    ⊎ (refused × (r ≡ (b, incorrect_value)))

module _ (b : NetworkBuf) (v : IsValid b) (n : ℕ) where
  reserve_lem : Moves b (b.data_ptr < b.head + n) (b.data_ptr - n) b.tail (reserve b n)
  unfolding reserve
  reserve_lem = elim (Bool-cases (ltb b.head_room n)) [
    | inl y ↦ inr (let lt = ltb→lt _ _ y in omega (arith, v.head_room, v.order), rw y refl)
    | inr fits ↦
        let le = ltb→le _ _ fits in
        rw fits (
          inl (
            record {
              order = (omega (arith, v.head_room, v.order), omega (arith, v.order), v.order.2);
              len = omega (arith, v.len, v.order, v.head_room, v.true_size, v.small);
              head_room = omega (arith, v.head_room, v.order);
              true_size = v.true_size;
              small = v.small;
            },
            refl,
            refl,
            refl,
            refl,
          ))
  ]

  put_lem : Moves b (b.end < b.tail + n) b.data_ptr (b.tail + n) (put b n)
  unfolding put
  put_lem = elim (Bool-cases (ltb b.end (b.tail + n))) [
    | inl y ↦ inr (ltb→lt _ _ y, rw y refl)
    | inr fits ↦
        let le = ltb→le _ _ fits in
        rw fits (
          inl (
            record {
              order = (v.order.0, omega (arith, v.order), omega arith);
              len = omega (arith, v.len, v.order, v.head_room, v.true_size, v.small);
              head_room = v.head_room;
              true_size = v.true_size;
              small = v.small;
            },
            refl,
            refl,
            refl,
            refl,
          ))
  ]

  pull_lem : Moves b (b.tail < b.data_ptr + n) (b.data_ptr + n) b.tail (pull b n)
  unfolding pull
  pull_lem = elim (Bool-cases (ltb b.len n)) [
    | inl y ↦ inr (let lt = ltb→lt _ _ y in omega (arith, v.len, v.order), rw y refl)
    | inr fits ↦
        let le = ltb→le _ _ fits in
        rw fits (
          inl (
            record {
              order = (omega (arith, v.order), omega (arith, v.len, v.order), v.order.2);
              len = omega (arith, v.len, v.order);
              head_room = omega (arith, v.len, v.order, v.head_room, v.true_size, v.small);
              true_size = v.true_size;
              small = v.small;
            },
            refl,
            refl,
            refl,
            refl,
          ))
  ]

  trim_lem : Moves b (b.tail < b.data_ptr + n) b.data_ptr (b.tail - n) (trim b n)
  unfolding trim
  trim_lem = elim (Bool-cases (ltb b.len n)) [
    | inl y ↦ inr (let lt = ltb→lt _ _ y in omega (arith, v.len, v.order), rw y refl)
    | inr fits ↦
        let le = ltb→le _ _ fits in
        rw fits (
          inl (
            record {
              order = (v.order.0, omega (arith, v.len, v.order), omega (arith, v.order));
              len = omega (arith, v.len, v.order);
              head_room = v.head_room;
              true_size = v.true_size;
              small = v.small;
            },
            refl,
            refl,
            refl,
            refl,
          ))
  ]

  -- NetworkReserve, NetworkPut, NetworkPull and NetworkTrim of a well-formed buffer move the one end of the
  -- window that they are about by n bytes and keep the buffer well formed, or fail where there are not as
  -- many bytes and change nothing.
  pub window_lem :
      Moves b (b.data_ptr < b.head + n) (b.data_ptr - n) b.tail (reserve b n)
      × Moves b (b.end < b.tail + n) b.data_ptr (b.tail + n) (put b n)
      × Moves b (b.tail < b.data_ptr + n) (b.data_ptr + n) b.tail (pull b n)
      × Moves b (b.tail < b.data_ptr + n) b.data_ptr (b.tail - n) (trim b n)
  window_lem = (reserve_lem, put_lem, pull_lem, trim_lem)

  -- A header that NetworkReserve makes room for and NetworkPull takes off again leaves the buffer as it
  -- was.
  pub pull-reserve : n ≤ b.head_room → pull (reserve b n).0 n ≡ (b, success)
  unfolding pull reserve
  pull-reserve le =
      let whole : (b.len + n) % 2 ^ 32 ≡ b.len + n =
        omega (arith, v.len, v.order, v.head_room, v.true_size, v.small) in
      let room : (b.head_room - n + n) % 2 ^ 32 ≡ b.head_room =
        omega (arith, v.order, v.head_room, v.true_size, v.small) in
      let front : b.data_ptr - n + n ≡ b.data_ptr = omega (arith, v.head_room, v.order) in
      let taken : b.len + n - n ≡ b.len = omega arith in
      rw (le→ltb b.head_room n le, whole, le→ltb (b.len + n) n (omega arith), room, front, taken)
        refl

  -- Bytes that NetworkPut adds and NetworkTrim takes off again leave the buffer as it was.
  pub trim-put : b.tail + n ≤ b.end → trim (put b n).0 n ≡ (b, success)
  unfolding trim put
  trim-put le =
      let whole : (b.len + n) % 2 ^ 32 ≡ b.len + n =
        omega (arith, v.len, v.order, v.head_room, v.true_size, v.small) in
      let back : b.tail + n - n ≡ b.tail = omega arith in
      let taken : b.len + n - n ≡ b.len = omega arith in
      rw (le→ltb b.end (b.tail + n) le, whole, le→ltb (b.len + n) n (omega arith), back, taken) refl
